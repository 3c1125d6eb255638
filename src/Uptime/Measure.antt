-- ===== src/Uptime/Measure.antt =====
-- How many instants before a bound pass a test: the independent account of the online time that
-- internal/store/traffic_history.go keeps per day.
use vibemonitor.Prelude.{
  ℕ, zero, suc, ◌+◌, ◌-◌, ◌≤◌, ◌<◌, ◌≡◌, refl, ap, ◌∙◌, Bool, true, false, ◌&&◌, ◌||◌, arith,
  if◌then◌else◌, leb, ltb, min, dec_le, ℕ_discrete, Bool-cases, inl, inr,
}

unfoldable pub measure : (ℕ → Bool) → ℕ → ℕ
measure p zero = 0
measure p (suc n) = measure p n + (if p n then 1 else 0)

unfoldable pub cut : (ℕ → Bool) → ℕ → ℕ → Bool
cut p u t = p t && ltb t u

module _ (p : ℕ → Bool) where
  pub measure_ext : (q : ℕ → Bool) → ((t : ℕ) → q t ≡ p t) → (n : ℕ) → measure q n ≡ measure p n
  unfolding measure
  measure_ext q same zero = refl
  measure_ext q same (suc n) = rw (same n) (omega (arith, measure_ext q same n))

  -- Nothing is counted past the last instant that passes.
  pub measure_stop : (u n : ℕ) → ((t : ℕ) → u ≤ t → p t ≡ false) → u ≤ n → measure p n ≡ measure p u
  unfolding measure
  measure_stop u zero quiet h = ap (measure p) {x = 0} {y = u} (omega (arith, h))
  measure_stop u (suc n) quiet h = elim (dec_le u n) [
    | yes le ↦ rw (quiet n le) (omega (arith, measure_stop u n quiet le))
    | no gt ↦ ap (measure p) {x = suc n} {y = u} (omega (arith, h, gt))
  ]

  -- The instants of an interval.
  pub measure_range :
      (a b n : ℕ) → ((t : ℕ) → p t ≡ (leb a t && ltb t b)) → measure p n ≡ min n b - a
  unfolding measure
  measure_range a b zero same = omega arith
  measure_range a b (suc n) same = rw (same n) (ground (arith, measure_range a b n same))

  pub measure-le_range :
      (a b n : ℕ) → ((t : ℕ) → p t ≡ true → (a ≤ t) × (t < b)) → measure p n ≤ min n b - a
  unfolding measure
  measure-le_range a b zero same = omega arith
  measure-le_range a b (suc n) same = ground (arith, same n, measure-le_range a b n same)

  pub measure_none : (n t : ℕ) → measure p n ≡ 0 → t < n → p t ≡ false
  unfolding measure
  measure_none zero t none_counted lt = elim lt [ ]
  measure_none (suc n) t none_counted lt = elim (ℕ_discrete t n) [
    | yes e ↦ elim (Bool-cases (p n)) [
      | inl passes ↦ absurd (ground (arith, passes, none_counted))
      | inr fails ↦ ap p e ∙ fails
    ]
    | no ne ↦ measure_none n t (ground (arith, none_counted)) (omega (arith, ne, lt))
  ]

  -- A count that fills its range counts every instant of it.
  pub measure_full :
      (a b n t : ℕ)
      → ((t : ℕ) → p t ≡ true → (a ≤ t) × (t < b))
      → min n b - a ≤ measure p n
      → a ≤ t
      → t < min n b
      → p t ≡ true
  unfolding measure
  measure_full a b zero t same full lo hi = absurd (omega (arith, hi))
  measure_full a b (suc n) t same full lo hi = elim (ℕ_discrete t n) [
    | yes e ↦ elim (Bool-cases (p n)) [
      | inl passes ↦ ap p e ∙ passes
      | inr fails ↦ absurd (ground (arith, fails, e, lo, hi, full, measure-le_range a b n same))
    ]
    | no ne ↦ measure_full a b n t same (ground (arith, same n, full)) lo (omega (arith, ne, hi))
  ]

-- Instants past a bound left out.
measure_below : (p : ℕ → Bool) (u n : ℕ) → n ≤ u → measure (cut p u) n ≡ measure p n
unfolding measure cut
measure_below p u zero h = refl
measure_below p u (suc n) h = ground (arith, h, measure_below p u n)

cut_quiet : (p : ℕ → Bool) (u t : ℕ) → u ≤ t → cut p u t ≡ false
unfolding cut
cut_quiet p u t h = ground (arith, h)

pub measure-cut : (p : ℕ → Bool) (u n : ℕ) → u ≤ n → measure (cut p u) n ≡ measure p u
measure-cut p u n h =
    measure_stop (cut p u) u n (cut_quiet p u) h ∙ measure_below p u u (omega arith)

pub measure_split :
    (p q r : ℕ → Bool)
    → ((t : ℕ) → r t ≡ (p t || q t))
    → ((t : ℕ) → (p t && q t) ≡ false)
    → (n : ℕ) → measure r n ≡ measure p n + measure q n
unfolding measure
measure_split p q r both apart zero = omega arith
measure_split p q r both apart (suc n) =
    rw (both n) (ground (arith, apart n, measure_split p q r both apart n))
