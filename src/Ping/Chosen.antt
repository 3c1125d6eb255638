-- ===== src/Ping/Chosen.antt =====
-- Which samples, windows and observations pruning keeps (internal/store/ping_data.go).
use text.Mathlib.Text.{◌==◌ as str_eq}
use text.Mathlib.TextEquality.{eq_iff}
use vibemonitor.Prelude.{
  ℕ, ◌-◌, ◌≤◌, ◌<◌, ◌≡◌, ◌≢◌, refl, Bool, true, false, ◌==◌, List, [], ◌∷◌, String, Option, none,
  some, arith, ltb, length, drop, keep, Bool-cases, inl, inr, ◌⊎◌,
}
use vibemonitor.Ping.Window.{PingSample, LossWindow}
use vibemonitor.Ping.Samples.{PingObservation}
use vibemonitor.Ping.Prune.{
  max_samples_per_target, pruned_observation, pruned_window, is_known_method, belongs, newest_day,
  pruned_samples,
}

-- What a sample of a pruned series satisfies.
abbrev pub IsOf : PingObservation → PingSample → Type 0
IsOf o s =
    (s.host ≡ o.host)
    × (o.started_at ≤ s.timestamp)
    × ((o.method ≡ "") ⊎ (s.method ≡ o.method))
    × (is_known_method s.method ≡ true)

pub belongs-IsOf : (o : PingObservation) (s : PingSample) → belongs o s ≡ true → IsOf o s
unfolding belongs
belongs-IsOf o s h = (host_of, started_of, method_of, known_of)
  where
    host_of : s.host ≡ o.host
    host_of = ground (arith, h, eq_iff s.host o.host)

    started_of : o.started_at ≤ s.timestamp
    started_of = ground (arith, h)

    known_of : is_known_method s.method ≡ true
    known_of = ground (arith, h)

    method_of : (o.method ≡ "") ⊎ (s.method ≡ o.method)
    method_of = elim (Bool-cases (str_eq o.method "")) [
      | inl e ↦ inl ((eq_iff o.method "").0 e)
      | inr e ↦ inr (ground (arith, h, e, eq_iff s.method o.method))
    ]

differ : {b : Bool} → b ≡ true → b ≢ false
differ e e' = cc

IsOf-belongs : (o : PingObservation) (s : PingSample) → IsOf o s → belongs o s ≡ true
unfolding belongs
IsOf-belongs o s (host, started, inl any, known) =
    ground (arith, started, known, (eq_iff s.host o.host).1 host, (eq_iff o.method "").1 any)
IsOf-belongs o s (host, started, inr method, known) =
    ground
      (arith, started, known, (eq_iff s.host o.host).1 host, (eq_iff s.method o.method).1 method)

-- The second list has those samples of the first, in their order, that are of the observation.
pub data Chosen (o : PingObservation) : List PingSample → List PingSample → Type 0 where
  over : Chosen o [] []
  taken :
      {s : PingSample} {xs ys : List PingSample}
      → IsOf o s
      → Chosen o xs ys
      → Chosen o (s ∷ xs) (s ∷ ys)
  left :
      {s : PingSample} {xs ys : List PingSample}
      → ¬ IsOf o s
      → Chosen o xs ys
      → Chosen o (s ∷ xs) ys

pub keep-Chosen :
    (o : PingObservation) (samples : List PingSample) → Chosen o samples (keep (belongs o) samples)
keep-Chosen o [] = over
keep-Chosen o (s ∷ samples) = elim (Bool-cases (belongs o s)) [
  | inl e ↦ rw e (taken (belongs-IsOf o s e) (keep-Chosen o samples))
  | inr e ↦ rw e (left (λ of. differ (IsOf-belongs o s of) e) (keep-Chosen o samples))
]

-- Those that the limit leaves are the newest.
pub pruned_samples_newest :
    (o : PingObservation) (samples : List PingSample)
    → pruned_samples o samples
      ≡ drop (length (keep (belongs o) samples) - max_samples_per_target) (keep (belongs o) samples)
unfolding pruned_samples newest_day
pruned_samples_newest o samples =
    elim (Bool-cases (ltb max_samples_per_target (length (keep (belongs o) samples)))) [
      | inl long ↦ rw long refl
      | inr short ↦
          let none_over : length (keep (belongs o) samples) - max_samples_per_target ≡ 0 =
            ground (arith, short) in
          rw (short, none_over) refl
    ]

-- An observation of the host that has begun stays; another one starts anew.
abbrev pub IsFollowUp : ℕ → String → PingObservation → PingObservation → Type 0
IsFollowUp now host old o =
    ((o ≡ old) × (old.host ≡ host) × (0 < old.started_at))
    ⊎ ((o ≡ record { host = host; method = ""; started_at = now; last_sample_at = 0 })
        × ((old.host ≢ host) ⊎ (old.started_at ≡ 0)))

pub pruned_observation-IsFollowUp :
    (now : ℕ) (host : String) (o : PingObservation)
    → IsFollowUp now host o (pruned_observation now host o)
unfolding pruned_observation
pruned_observation-IsFollowUp now host o = elim (Bool-cases (str_eq o.host host)) [
  | inr other ↦ rw other (inr (refl, inl (λ e. differ ((eq_iff o.host host).1 e) other)))
  | inl same ↦ elim (Bool-cases (o.started_at == 0)) [
    | inl unknown ↦ rw (same, unknown) (inr (refl, inr (ground (arith, unknown))))
    | inr begun ↦ rw (same, begun) (inl (refl, (eq_iff o.host host).0 same, ground (arith, begun)))
  ]
]

-- A window of the observation's host and method stays; another one is replaced by an empty one.
abbrev pub IsWindowOf : PingObservation → Option LossWindow → LossWindow → Type 0
IsWindowOf o old w =
    ((old ≡ some w) × (w.host ≡ o.host) × (w.method ≡ o.method))
    ⊎ ((w ≡ record { host = o.host; method = o.method; points = []; base_lost = 0 })
        × ((old ≡ none)
            ⊎ ((v : LossWindow) × (old ≡ some v) × ((v.host ≢ o.host) ⊎ (v.method ≢ o.method)))))

pub pruned_window-IsWindowOf :
    (o : PingObservation) (old : Option LossWindow) → IsWindowOf o old (pruned_window o old)
unfolding pruned_window
pruned_window-IsWindowOf o none = inr (refl, inl refl)
pruned_window-IsWindowOf o (some v) = elim (Bool-cases (str_eq v.host o.host)) [
  | inr other ↦
      rw other (inr (refl, inr (v, refl, inl (λ e. differ ((eq_iff v.host o.host).1 e) other))))
  | inl host ↦ elim (Bool-cases (str_eq v.method o.method)) [
    | inr other ↦
        rw (host, other)
          (inr (refl, inr (v, refl, inr (λ e. differ ((eq_iff v.method o.method).1 e) other))))
    | inl method ↦
        rw (host, method)
          (inl (refl, (eq_iff v.host o.host).0 host, (eq_iff v.method o.method).0 method))
  ]
]
