-- ===== src/Store/PointsLaws.antt =====
-- The points of a node (internal/store/store.go) are the newest of all reports.
use mathlib.Core.List.{append-nil, append_assoc}
use vibemonitor.Prelude.{
  ℕ, zero, suc, ◌+◌, ◌-◌, ◌≤◌, ◌<◌, ◌≡◌, refl, sym, ap, ◌∙◌, true, List, [], ◌∷◌, ◌++◌, leb, length,
  drop, arith, length-append, length-drop, drop-append, Bool-cases, inl, inr,
}
use vibemonitor.Store.Points.{append_point, append_points}

module _ {A : Type 0} where
  -- The newest of a list.
  abbrev pub newest_of : ℕ → List A → List A
  newest_of limit points = drop (length points - limit) points

  drop_one : (k : ℕ) (xs : List A) → drop 1 (drop k xs) ≡ drop (suc k) xs
  drop_one zero xs = refl
  drop_one (suc k) [] = refl
  drop_one (suc zero) (x ∷ xs) = refl
  drop_one (suc (suc k)) (x ∷ xs) = drop_one (suc k) xs

  short_newest :
      (limit : ℕ) (points : List A) → length points ≤ limit → newest_of limit points ≡ points
  short_newest limit points le =
      ap (λ k. drop k points) {x = length points - limit} {y = 0} (omega (arith, le))

  -- One append keeps the newest, whether the limit is reached or not.
  append_newest :
      (limit : ℕ) (p : A) (points : List A)
      → 0 < limit
      → append_point limit p (newest_of limit points) ≡ newest_of limit (points ++ (p ∷ []))
  unfolding append_point
  append_newest limit p points positive = elim (Bool-cases (leb limit (length points))) [
    | inl reached ↦
        let le : limit ≤ length points = ground (arith, reached) in
        let more : length points - limit + 1 ≡ length (points ++ (p ∷ [])) - limit =
          omega (arith, le, length-append points (p ∷ [])) in
        let cut : leb limit (length (newest_of limit points)) ≡ true =
          ground (arith, le, length-drop (length points - limit) points) in
        rw cut (
          ap (λ xs. xs ++ (p ∷ [])) (drop_one (length points - limit) points)
          ∙ sym (
              drop-append (suc (length points - limit)) points (p ∷ [])
                (omega (arith, le, positive)))
          ∙ ap (λ k. drop k (points ++ (p ∷ []))) {x = suc (length points - limit)}
              {y = length (points ++ (p ∷ [])) - limit} (omega (arith, more)))
    | inr room ↦
        let lt : length points < limit = ground (arith, room) in
        rw (short_newest limit points (omega (arith, lt)), room)
          (sym (
            short_newest limit (points ++ (p ∷ []))
              (omega (arith, lt, length-append points (p ∷ [])))))
  ]

  append_points_newest :
      (limit : ℕ) (new points : List A)
      → 0 < limit
      → append_points limit new (newest_of limit points) ≡ newest_of limit (points ++ new)
  unfolding append_points
  append_points_newest limit [] points positive = ap (newest_of limit) (sym (append-nil points))
  append_points_newest limit (p ∷ new) points positive =
      ap (append_points limit new) (append_newest limit p points positive)
      ∙ append_points_newest limit new (points ++ (p ∷ [])) positive
      ∙ ap (newest_of limit) (append_assoc points (p ∷ []) new)

  -- However many points a node gets, it has the newest of them, as many as the limit allows: appending
  -- one after the other is appending all and then cutting once. At the start it is within the limit.
  append_points_lem :
      (limit : ℕ) (new points : List A)
      → 0 < limit
      → length points ≤ limit
      → append_points limit new points ≡ newest_of limit (points ++ new)
  append_points_lem limit new points positive le =
      ap (append_points limit new) (sym (short_newest limit points le))
      ∙ append_points_newest limit new points positive
