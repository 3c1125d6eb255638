-- ===== src/Ping/SamplesLaws.antt =====
-- The series of ping samples that internal/store/store.go keeps in memory and queues.
use vibemonitor.Prelude.{
  ℕ, ◌≤◌, ◌≡◌, ◌≢◌, refl, ap, ◌∙◌, sym, true, false, List, [], ◌∷◌, ◌++◌, some, arith,
  if◌then◌else◌, leb, length, String, value_or, Bool-cases, inl, inr, ◌⊎◌, some-injective,
}
use text.Mathlib.Text.{◌==◌ as str_eq}
use text.Mathlib.TextEquality.{eq_iff}
use vibemonitor.Prelude.Assoc.{
  String_discrete, lookup-insert_self, lookup-insert_ne, lookup-delete_self, lookup-delete_ne,
}
use vibemonitor.Store.Queue.{HistorySample, enqueue_history, max_pending_history_samples}
use vibemonitor.Ping.Results.{PingResult}
use vibemonitor.Ping.Window.{PingSample}
use vibemonitor.Ping.Samples.{
  PingObservation, no_observation, PingState, samples_of, observation_of, is_other_series,
  adopt_method, set_window, restart_series, continue_series, record_ping_observation, last_time,
  is_due, newest, sample_at, append_window, keep_sample, queued, keep_queued, sample_due,
}
use vibemonitor.Ping.Spaced.{Spaced, OfHost, newest-Spaced, newest-OfHost, last_time-newest}

-- The series of a target is of one host and spaced by the sample interval, and its newest sample is
-- no later than the time of the last sample on record.
pub record IsTidy (o : PingObservation) (samples : List PingSample) : Type 0 where
  pub hosts : OfHost o.host samples
  pub spaced : Spaced samples
  pub recorded : (t : ℕ) → last_time samples ≡ some t → t ≤ o.last_sample_at

abbrev pub TidyAt : String → PingState → Type 0
TidyAt name n = IsTidy (observation_of name n) (samples_of name n)

-- The two parts of a series after the observation of a result.
pub observed_samples :
    (name host method : String) (at : ℕ) (n : PingState)
    → samples_of name (record_ping_observation name host method at n)
      ≡ (if is_other_series host method (observation_of name n) then [] else samples_of name n)
unfolding record_ping_observation set_window restart_series continue_series
observed_samples name host method at n =
    elim (Bool-cases (is_other_series host method (observation_of name n))) [
      | inl other ↦ rw (other, lookup-delete_self String_discrete name n.history) refl
      | inr same ↦ rw same refl
    ]

unfoldable pub observed_next : String → String → ℕ → PingObservation → PingObservation
observed_next host method at o =
    if is_other_series host method o
    then record { host = host; method = method; started_at = at; last_sample_at = 0 }
    else adopt_method method at o

pub observed_observation :
    (name host method : String) (at : ℕ) (n : PingState)
    → observation_of name (record_ping_observation name host method at n)
      ≡ observed_next host method at (observation_of name n)
unfolding record_ping_observation set_window restart_series continue_series observed_next
observed_observation name host method at n =
    elim (Bool-cases (is_other_series host method (observation_of name n))) [
      | inl other ↦
          rw
            (
              other,
              lookup-insert_self String_discrete name
                  (record { host = host; method = method; started_at = at; last_sample_at = 0 })
                  n.observed,
            )
            refl
      | inr same ↦
          rw
            (
              same,
              lookup-insert_self String_discrete name
                  (adopt_method method at (observation_of name n)) n.observed,
            )
            refl
    ]

pub observed_elsewhere :
    (name other host method : String) (at : ℕ) (n : PingState)
    → name ≢ other
    → (samples_of other (record_ping_observation name host method at n) ≡ samples_of other n)
      × (observation_of other (record_ping_observation name host method at n)
          ≡ observation_of other n)
unfolding record_ping_observation set_window restart_series continue_series
observed_elsewhere name other host method at n ne =
    elim (Bool-cases (is_other_series host method (observation_of name n))) [
      | inl changed ↦ rw changed (
        ap (value_or []) (lookup-delete_ne String_discrete other name n.history ne),
        ap (value_or no_observation) (lookup-insert_ne String_discrete other name _ n.observed ne),
      )
      | inr same ↦ rw same (
        refl,
        ap (value_or no_observation) (lookup-insert_ne String_discrete other name _ n.observed ne),
      )
    ]

pub kept_samples :
    (name : String) (s : PingSample) (n : PingState)
    → samples_of name (keep_sample name s n) ≡ newest (samples_of name n ++ (s ∷ []))
unfolding keep_sample append_window
kept_samples name s n = ap (value_or []) (lookup-insert_self String_discrete name _ n.history)

pub kept_observation :
    (name : String) (s : PingSample) (n : PingState)
    → observation_of name (keep_sample name s n)
      ≡ record (observation_of name n) { last_sample_at = s.timestamp }
unfolding keep_sample append_window
kept_observation name s n =
    ap (value_or no_observation) (lookup-insert_self String_discrete name _ n.observed)

pub kept_elsewhere :
    (name other : String) (s : PingSample) (n : PingState)
    → name ≢ other
    → (samples_of other (keep_sample name s n) ≡ samples_of other n)
      × (observation_of other (keep_sample name s n) ≡ observation_of other n)
unfolding keep_sample append_window
kept_elsewhere name other s n ne = (
  ap (value_or []) (lookup-insert_ne String_discrete other name _ n.history ne),
  ap (value_or no_observation) (lookup-insert_ne String_discrete other name _ n.observed ne),
)

-- A result is of the series that it is recorded in, whose last sample is not later.
pub host_next :
    (host method : String) (at : ℕ) (o : PingObservation)
    → (observed_next host method at o).host ≡ host
unfolding observed_next is_other_series adopt_method
host_next host method at o = ground (arith, eq_iff o.host host)

last_next :
    (host method : String) (at : ℕ) (o : PingObservation)
    → o.last_sample_at ≤ at
    → (observed_next host method at o).last_sample_at ≤ at
unfolding observed_next is_other_series adopt_method
last_next host method at o h = ground (arith, h)

IsTidy-adopted :
    (method : String) (at : ℕ) (o : PingObservation) (samples : List PingSample)
    → IsTidy o samples
    → IsTidy (adopt_method method at o) samples
unfolding adopt_method
IsTidy-adopted method at o samples tidy = elim (Bool-cases (str_eq o.method "")) [
  | inl legacy ↦
      rw legacy (record { hosts = tidy.hosts; spaced = tidy.spaced; recorded = tidy.recorded })
  | inr given ↦ rw given tidy
]

pub IsTidy-observed :
    (host method : String) (at : ℕ) (o : PingObservation) (samples : List PingSample)
    → IsTidy o samples
    → IsTidy
        (observed_next host method at o)
        (if is_other_series host method o then [] else samples)
unfolding observed_next
IsTidy-observed host method at o samples tidy = elim (Bool-cases (is_other_series host method o)) [
  | inl other ↦ rw other (record { hosts = tt; spaced = tt; recorded = λ t e. absurd cc })
  | inr same ↦ rw same (IsTidy-adopted method at o samples tidy)
]

IsTidy-kept :
    (p : PingResult) (at : ℕ) (o : PingObservation) (samples : List PingSample)
    → IsTidy o samples
    → o.host ≡ p.host
    → is_due at (last_time samples) ≡ true
    → IsTidy (record o { last_sample_at = at }) (newest (samples ++ (sample_at p at ∷ [])))
IsTidy-kept p at o samples tidy same due = record {
  hosts = newest-OfHost o.host samples (sample_at p at) tidy.hosts (sym same);
  spaced = newest-Spaced samples (sample_at p at) tidy.spaced due;
  recorded = λ t e.
      let same_time : at ≡ t =
        some-injective (sym (last_time-newest samples (sample_at p at)) ∙ e) in
      omega (arith, same_time);
}

module _ {R : Type 0} (no_readings : R) (uuid : String) where
  abbrev pub queue_with :
      PingResult → ℕ → PingState → List (HistorySample R) → List (HistorySample R)
  queue_with p at n pending =
      pending ++ (queued no_readings uuid p at (observation_of p.name n).started_at ∷ [])

  -- What becomes of a result whose observation is on record.
  pub due_cases :
      (p : PingResult) (at : ℕ) (n : PingState) (pending : List (HistorySample R))
      → ((sample_due no_readings uuid p at (n, pending) ≡ (n, pending))
          × ((is_due at (last_time (samples_of p.name n)) ≡ false)
              ⊎ (max_pending_history_samples ≤ length pending)))
        ⊎ ((is_due at (last_time (samples_of p.name n)) ≡ true)
            × (sample_due no_readings uuid p at (n, pending)
                ≡ (keep_sample p.name (sample_at p at) n, queue_with p at n pending)))
  unfolding sample_due keep_queued enqueue_history
  due_cases p at n pending = elim (Bool-cases (is_due at (last_time (samples_of p.name n)))) [
    | inl due ↦ elim (Bool-cases (leb max_pending_history_samples (length pending))) [
      | inl full ↦ inl (rw (due, full) refl, inr (ground (arith, full)))
      | inr room ↦ inr (due, rw (due, room) refl)
    ]
    | inr early ↦ inl (rw early refl, inl early)
  ]

  pub due-TidyAt :
      (p : PingResult) (at : ℕ) (n : PingState) (pending : List (HistorySample R))
      → TidyAt p.name n
      → (observation_of p.name n).host ≡ p.host
      → TidyAt p.name (sample_due no_readings uuid p at (n, pending)).0
  due-TidyAt p at n pending tidy same = elim (due_cases p at n pending) [
    | inl (e, why) ↦ rw e tidy
    | inr (due, e) ↦
        rw (e, kept_samples p.name (sample_at p at) n, kept_observation p.name (sample_at p at) n)
          (IsTidy-kept p at (observation_of p.name n) (samples_of p.name n) tidy same due)
  ]

  pub due_elsewhere :
      (p : PingResult) (other : String) (at : ℕ) (n : PingState) (pending : List (HistorySample R))
      → p.name ≢ other
      → TidyAt other n
      → TidyAt other (sample_due no_readings uuid p at (n, pending)).0
  due_elsewhere p other at n pending ne tidy = elim (due_cases p at n pending) [
    | inl (e, why) ↦ rw e tidy
    | inr (due, e) ↦
        let (h, o) = kept_elsewhere p.name other (sample_at p at) n ne in rw (e, h, o) tidy
  ]
