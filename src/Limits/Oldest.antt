-- ===== src/Limits/Oldest.antt =====
-- The eviction loop that both limiters run over their map: find the entry with the earliest
-- instant, and delete it. A key "" counts as "none found yet", as in the source.
use vibemonitor.Prelude.{
  ℕ, ◌-◌, ◌≤◌, ◌≡◌, refl, ◌⊎◌, inl, inr, ◌||◌, List, [], ◌∷◌, String, if◌then◌else◌, length, some,
  arith, Bool-cases,
}
use vibemonitor.Prelude.Assoc.{
  String_discrete, Distinct, lookup, delete, length-delete-lt, delete-Distinct,
}
use vibemonitor.Prelude.Clock.{before}
use text.Mathlib.Text.{◌==◌ as str_eq}

module _ {V : Type 0} (at : V → ℕ) where
  oldest_from : String → ℕ → List (String × V) → String
  oldest_from oldest_key oldest [] = oldest_key
  oldest_from oldest_key oldest ((key, v) ∷ m) =
      let take_it = str_eq oldest_key "" || before (at v) oldest in
      oldest_from (if take_it then key else oldest_key) (if take_it then at v else oldest) m

  unfoldable pub drop_oldest : List (String × V) → List (String × V)
  unfolding oldest_from
  drop_oldest m = delete String_discrete (oldest_from "" 0 m) m

  Present : String → List (String × V) → Type 0
  Present k m = (v : V) × (lookup String_discrete k m ≡ some v)

  Present-cons :
      (k j : String) (w : V) (m : List (String × V)) → Present k m → Present k ((j, w) ∷ m)
  unfolding lookup Present
  Present-cons k j w m (v, e) = elim (String_discrete j k) [
    | yes p ↦ (w, ground arith)
    | no p ↦ (v, ground arith)
  ]

  Present-head : (k j : String) (w : V) (m : List (String × V)) → k ≡ j → Present k ((j, w) ∷ m)
  unfolding lookup Present
  Present-head k j w m e = (w, ground arith)

  -- The key found is the one in hand, or a key of the map.
  oldest_from-Present :
      (k : String) (t : ℕ) (m : List (String × V))
      → (oldest_from k t m ≡ k) ⊎ Present (oldest_from k t m) m
  unfolding oldest_from
  oldest_from-Present k t [] = inl refl
  oldest_from-Present k t ((key, v) ∷ m) = elim (Bool-cases (str_eq k "" || before (at v) t)) [
    | inl taken ↦ rw taken (
        inr (elim (oldest_from-Present key (at v) m) [
          | inl e ↦ Present-head _ key v m e
          | inr p ↦ Present-cons _ key v m p
        ]))
    | inr kept ↦ rw kept (elim (oldest_from-Present k t m) [
      | inl e ↦ inl e
      | inr p ↦ inr (Present-cons _ key v m p)
    ])
  ]

  drop_oldest-Present :
      (key : String) (v : V) (m : List (String × V))
      → Present (oldest_from key (at v) m) ((key, v) ∷ m)
  drop_oldest-Present key v m = elim (oldest_from-Present key (at v) m) [
    | inl e ↦ Present-head _ key v m e
    | inr p ↦ Present-cons _ key v m p
  ]

  -- A map with an entry loses at least one.
  length-drop_oldest-lt :
      (key : String) (v : V) (m : List (String × V))
      → length (drop_oldest ((key, v) ∷ m)) ≤ length m
  unfolding drop_oldest Present
  length-drop_oldest-lt key v m =
      let (w, found) = drop_oldest-Present key v m in
      omega (arith, length-delete-lt String_discrete _ w ((key, v) ∷ m) found)

  pub length-drop_oldest : (m : List (String × V)) → length (drop_oldest m) ≤ length m - 1
  unfolding drop_oldest delete
  length-drop_oldest [] = omega arith
  length-drop_oldest ((key, v) ∷ m) = omega (arith, length-drop_oldest-lt key v m)

  pub drop_oldest-Distinct :
      (m : List (String × V))
      → Distinct String_discrete m
      → Distinct String_discrete (drop_oldest m)
  unfolding drop_oldest
  drop_oldest-Distinct m d = delete-Distinct String_discrete _ m d
