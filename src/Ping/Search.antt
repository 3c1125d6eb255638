-- ===== src/Ping/Search.antt =====
-- `sort.Search` of Go's standard library: the binary search that finds the smallest index in
-- [0, n) at which a monotone test holds, or n.
use vibemonitor.Prelude.{
  ℕ, zero, suc, ◌+◌, ◌/◌, ◌≤◌, ◌<◌, ◌≡◌, Bool, true, false, if◌then◌else◌, arith, Bool-cases, inl,
  inr, leb, dec_lt,
}

-- Each round halves the range, so n rounds are enough.
search_loop : ℕ → ℕ → ℕ → (ℕ → Bool) → ℕ
search_loop zero i j p = i
search_loop (suc fuel) i j p =
    let h = (i + j) / 2 in
    let lower = search_loop fuel i h p in
    let upper = search_loop fuel (h + 1) j p in if leb j i then i else if p h then lower else upper

unfoldable pub search : ℕ → (ℕ → Bool) → ℕ
unfolding search_loop
search n p = search_loop (n + 1) 0 n p

-- The first index at which the test holds.
pub record IsFirst (n : ℕ) (p : ℕ → Bool) (r : ℕ) : Type 0 where
  pub within : r ≤ n
  pub below : (k : ℕ) → k < r → p k ≡ false
  pub holds : r < n → p r ≡ true

abbrev pub Monotone : ℕ → (ℕ → Bool) → Type 0
Monotone n p = (i j : ℕ) → i ≤ j → j < n → p i ≡ true → p j ≡ true

module _ (n : ℕ) (p : ℕ → Bool) (mono : Monotone n p) where
  below_step : (h : ℕ) → h < n → p h ≡ false → (k : ℕ) → k < h + 1 → p k ≡ false
  below_step h lt no_h k hk = elim (Bool-cases (p k)) [
    | inr f ↦ f
    | inl t ↦ absurd (ground (arith, mono k h (omega arith) lt t))
  ]

  search_loop-IsFirst :
      (fuel i j : ℕ)
      → j < fuel + i
      → i ≤ j
      → j ≤ n
      → ((k : ℕ) → k < i → p k ≡ false)
      → (j < n → p j ≡ true)
      → IsFirst n p (search_loop fuel i j p)
  unfolding search_loop
  search_loop-IsFirst zero i j f ij jn lo hi = absurd (omega arith)
  search_loop-IsFirst (suc fuel) i j f ij jn lo hi = elim (dec_lt i j) [
    | no stop ↦
        let at_end : search_loop (suc fuel) i j p ≡ i = ground arith in
        let same : i ≡ j = omega arith in
        rw at_end
          (record { within = omega arith; below = lo; holds = λ lt. rw same (hi (omega arith)) })
    | yes more ↦ elim (Bool-cases (p ((i + j) / 2))) [
      | inl t ↦
          let lower : search_loop (suc fuel) i j p ≡ search_loop fuel i ((i + j) / 2) p =
            ground arith in
          rw lower (
            search_loop-IsFirst fuel i ((i + j) / 2) (omega arith) (omega arith) (omega arith) lo
              (λ _. t))
      | inr f' ↦
          let upper : search_loop (suc fuel) i j p ≡ search_loop fuel ((i + j) / 2 + 1) j p =
            ground arith in
          rw upper (
            search_loop-IsFirst fuel ((i + j) / 2 + 1) j (omega arith) (omega arith) jn
              (below_step ((i + j) / 2) (omega arith) f') hi)
    ]
  ]

  -- On a monotone test the binary search finds the first index.
  pub search-IsFirst : IsFirst n p (search n p)
  unfolding search
  search-IsFirst =
      search_loop-IsFirst (n + 1) 0 n (omega arith) (omega arith) (omega arith)
        (λ k h. absurd (omega arith)) (λ h. absurd (omega arith))

-- There is one first index.
pub IsFirst-unique : (n : ℕ) (p : ℕ → Bool) (r s : ℕ) → IsFirst n p r → IsFirst n p s → r ≡ s
IsFirst-unique n p r s hr hs = elim (dec_lt r s) [
  | yes lt ↦ absurd (clash r s hr.holds hs.below hs.within lt)
  | no ge ↦ elim (dec_lt s r) [
    | yes gt ↦ absurd (clash s r hs.holds hr.below hr.within gt)
    | no le ↦ omega arith
  ]
]
  where
    clash : (a b : ℕ) → (a < n → p a ≡ true) → ((k : ℕ) → k < b → p k ≡ false) → b ≤ n → a < b → ⊥
    clash a b holds below within lt = let t = holds (omega arith) in let f = below a lt in cc
