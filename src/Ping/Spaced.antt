-- ===== src/Ping/Spaced.antt =====
-- Series of ping samples at least a sample interval apart, as internal/store/store.go keeps them.
use vibemonitor.Prelude.{
  ℕ, zero, suc, ◌+◌, ◌-◌, ◌≤◌, ◌≡◌, refl, ap, ◌∙◌, true, List, [], ◌∷◌, ◌++◌, some, arith, ltb,
  length, drop, All, length-append, length-drop, drop-append, String, Bool-cases, inl, inr,
}
use vibemonitor.Ping.Window.{PingSample}
use vibemonitor.Ping.Samples.{sample_interval, preview_samples, last_time, is_due, newest}

abbrev pub Spaced : List PingSample → Type 0
Spaced [] = Unit
Spaced (s ∷ []) = Unit
Spaced (s ∷ t ∷ samples) = (s.timestamp + sample_interval ≤ t.timestamp) × Spaced (t ∷ samples)

abbrev pub OfHost : String → List PingSample → Type 0
OfHost host samples = All (λ s. s.host ≡ host) samples

pub last_time-append :
    (xs : List PingSample) (s : PingSample) → last_time (xs ++ (s ∷ [])) ≡ some s.timestamp
last_time-append [] s = refl
last_time-append (x ∷ []) s = refl
last_time-append (x ∷ y ∷ xs) s = last_time-append (y ∷ xs) s

Spaced-append :
    (xs : List PingSample) (s : PingSample)
    → Spaced xs
    → is_due s.timestamp (last_time xs) ≡ true
    → Spaced (xs ++ (s ∷ []))
unfolding is_due
Spaced-append [] s h due = tt
Spaced-append (x ∷ []) s h due = (ground (arith, due), tt)
Spaced-append (x ∷ y ∷ xs) s h due = (h.0, Spaced-append (y ∷ xs) s h.1 due)

Spaced-drop : (n : ℕ) (xs : List PingSample) → Spaced xs → Spaced (drop n xs)
Spaced-drop zero xs h = h
Spaced-drop (suc n) [] h = tt
Spaced-drop (suc zero) (x ∷ []) h = tt
Spaced-drop (suc (suc n)) (x ∷ []) h = tt
Spaced-drop (suc n) (x ∷ y ∷ xs) h = Spaced-drop n (y ∷ xs) h.1

OfHost-append :
    (host : String) (xs : List PingSample) (s : PingSample)
    → OfHost host xs
    → s.host ≡ host
    → OfHost host (xs ++ (s ∷ []))
OfHost-append host [] s h e = (e, tt)
OfHost-append host (x ∷ xs) s h e = (h.0, OfHost-append host xs s h.1 e)

OfHost-drop :
    (host : String) (n : ℕ) (xs : List PingSample) → OfHost host xs → OfHost host (drop n xs)
OfHost-drop host zero xs h = h
OfHost-drop host (suc n) [] h = tt
OfHost-drop host (suc n) (x ∷ xs) h = OfHost-drop host n xs h.1

-- What `newest` keeps is a tail of the list.
newest_cases :
    (P : List PingSample → Type 0) (xs : List PingSample)
    → P xs
    → P (drop (length xs - preview_samples) xs)
    → P (newest xs)
unfolding newest
newest_cases P xs whole cut = elim (Bool-cases (ltb preview_samples (length xs))) [
  | inl long ↦ rw long cut
  | inr short ↦ rw short whole
]

pub length-newest : (xs : List PingSample) → length (newest xs) ≤ preview_samples
unfolding newest
length-newest xs = ground (arith, length-drop (length xs - preview_samples) xs)

pub newest-Spaced :
    (xs : List PingSample) (s : PingSample)
    → Spaced xs
    → is_due s.timestamp (last_time xs) ≡ true
    → Spaced (newest (xs ++ (s ∷ [])))
newest-Spaced xs s h due =
    let whole : Spaced (xs ++ (s ∷ [])) = Spaced-append xs s h due in
    newest_cases Spaced (xs ++ (s ∷ [])) whole
      (Spaced-drop (length (xs ++ (s ∷ [])) - preview_samples) (xs ++ (s ∷ [])) whole)

pub newest-OfHost :
    (host : String) (xs : List PingSample) (s : PingSample)
    → OfHost host xs
    → s.host ≡ host
    → OfHost host (newest (xs ++ (s ∷ [])))
newest-OfHost host xs s h e =
    let whole : OfHost host (xs ++ (s ∷ [])) = OfHost-append host xs s h e in
    newest_cases (OfHost host) (xs ++ (s ∷ [])) whole
      (OfHost-drop host (length (xs ++ (s ∷ [])) - preview_samples) (xs ++ (s ∷ [])) whole)

-- The newest sample is always kept.
pub last_time-newest :
    (xs : List PingSample) (s : PingSample) → last_time (newest (xs ++ (s ∷ []))) ≡ some s.timestamp
last_time-newest xs s =
    newest_cases (λ ys. last_time ys ≡ some s.timestamp) (xs ++ (s ∷ [])) (last_time-append xs s)
      (ap last_time (
          drop-append (length (xs ++ (s ∷ [])) - preview_samples) xs (s ∷ [])
            (omega (arith, length-append xs (s ∷ []))))
        ∙ last_time-append (drop (length (xs ++ (s ∷ [])) - preview_samples) xs) s)
