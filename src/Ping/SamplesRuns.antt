-- ===== src/Ping/SamplesRuns.antt =====
-- Whole reports of ping results, as `ingestReportAt` of internal/store/store.go samples them.
use vibemonitor.Prelude.{
  ◌+◌, ℕ, ◌≤◌, ◌<◌, ◌≡◌, refl, ap, ◌∙◌, sym, false, List, [], ◌∷◌, ◌++◌, Option, none, some, arith,
  ltb, length, String, Bool-cases, inl, inr, ◌⊎◌, true, zero, suc, ◌-◌, drop, drop-append,
  length-append,
}
use mathlib.Core.Path.{subst}
use text.Mathlib.TextEquality.{eq_iff}
use vibemonitor.Prelude.Assoc.{String_discrete}
use vibemonitor.Prelude.Int.{pos}
use vibemonitor.Ping.Window.{PingSample}
use vibemonitor.Store.Queue.{HistorySample, max_pending_history_samples}
use vibemonitor.Ping.Results.{PingResult}
use vibemonitor.Ping.Samples.{
  last_time, PingObservation, PingState, samples_of, observation_of, is_other_series, adopt_method,
  record_ping_observation, is_due, newest, sample_at, keep_sample, preview_samples, sample_time,
  Sampled, sample_due, sample_result_at, sample_result, sample_results, sample_interval,
}
use vibemonitor.Ping.Spaced.{length-newest}
use vibemonitor.Ping.SamplesLaws.{
  TidyAt, observed_samples, observed_next, observed_observation, observed_elsewhere, kept_samples,
  kept_observation, host_next, IsTidy-observed, due_cases, due-TidyAt, due_elsewhere,
}

abbrev pub observe : PingResult → ℕ → PingState → PingState
observe p at n = record_ping_observation p.name p.host p.method at n

observe-TidyAt :
    (p : PingResult) (at : ℕ) (n : PingState) → TidyAt p.name n → TidyAt p.name (observe p at n)
observe-TidyAt p at n tidy =
    rw
      (
        observed_samples p.name p.host p.method at n,
        observed_observation p.name p.host p.method at n,
      )
      (IsTidy-observed p.host p.method at (observation_of p.name n) (samples_of p.name n) tidy)

observe_host :
    (p : PingResult) (at : ℕ) (n : PingState)
    → (observation_of p.name (observe p at n)).host ≡ p.host
observe_host p at n =
    ap (λ (o : PingObservation). o.host) (observed_observation p.name p.host p.method at n)
    ∙ host_next p.host p.method at (observation_of p.name n)

module _ {R : Type 0} (no_readings : R) (uuid : String) where
  timed-TidyAt :
      (p : PingResult) (o : Option ℕ) (name : String) (s : Sampled no_readings)
      → TidyAt name s.0
      → TidyAt name (sample_result_at no_readings uuid p o s).0
  unfolding sample_result_at
  timed-TidyAt p none name s tidy = tidy
  timed-TidyAt p (some at) name (n, pending) tidy =
      elim (Bool-cases (ltb at (observation_of p.name n).last_sample_at)) [
        | inl old ↦ rw old tidy
        | inr new ↦ rw new (elim (String_discrete p.name name) [
          | yes e ↦
              subst (λ m. TidyAt m (sample_due no_readings uuid p at (observe p at n, pending)).0) e
                (due-TidyAt no_readings uuid p at (observe p at n) pending
                  (observe-TidyAt p at n (subst (λ m. TidyAt m n) (sym e) tidy))
                  (observe_host p at n))
          | no ne ↦ due_elsewhere no_readings uuid p name at (observe p at n) pending ne (
              let (h, o) = observed_elsewhere p.name name p.host p.method at n ne in rw (h, o) tidy)
        ])
      ]

  -- However many results a report brings and whatever they say: the series of each target that was
  -- in order before stays in order. Its samples are of one host, the observation's; each is at least
  -- 60 seconds after the one before it; and none is later than the observation's last sample time.
  pub sample_results-TidyAt :
      (received_at : ℕ) (results : List PingResult) (name : String) (s : Sampled no_readings)
      → TidyAt name s.0
      → TidyAt name (sample_results no_readings uuid received_at results s).0
  unfolding sample_results sample_result
  sample_results-TidyAt received_at [] name s tidy = tidy
  sample_results-TidyAt received_at (p ∷ results) name s tidy =
      sample_results-TidyAt received_at results name _
        (timed-TidyAt p (sample_time p received_at) name s tidy)

-- The sample that a result stands for.
abbrev pub sample_of : PingResult → ℕ → PingSample
sample_of p at = record { host = p.host; method = p.method; timestamp = at; latency = p.latency }

-- The sample of the result is the newest of its series, after some of those before, 24 in all at most.
pub record IsRecorded (p : PingResult) (at : ℕ) (old : List PingSample) (n : PingState)
    : Type 0 where
  pub dropped : ℕ
  pub samples : samples_of p.name n ≡ drop dropped old ++ (sample_of p at ∷ [])
  pub bounded : length (samples_of p.name n) ≤ preview_samples
  pub clock : (observation_of p.name n).last_sample_at ≡ at
  pub same : is_other_series p.host p.method (observation_of p.name n) ≡ false

settled_next :
    (host method : String) (at : ℕ) (o : PingObservation)
    → 0 < at
    → is_other_series host method (observed_next host method at o) ≡ false
unfolding observed_next is_other_series adopt_method
settled_next host method at o positive =
    ground (arith, positive, eq_iff host host, eq_iff method method, eq_iff o.host host)

pub series_keeps_time :
    (host method : String) (at : ℕ) (o : PingObservation)
    → is_other_series host method o ≡ false
    → is_other_series host method (record o { last_sample_at = at }) ≡ false
unfolding is_other_series
series_keeps_time host method at o same = same

observed_untouched :
    (p : PingResult) (at : ℕ) (n : PingState)
    → (samples_of p.name (observe p at n) ≡ samples_of p.name n)
      ⊎ (samples_of p.name (observe p at n) ≡ [])
observed_untouched p at n =
    elim (Bool-cases (is_other_series p.host p.method (observation_of p.name n))) [
      | inl other ↦ inr (observed_samples p.name p.host p.method at n ∙ rw other refl)
      | inr same ↦ inl (observed_samples p.name p.host p.method at n ∙ rw same refl)
    ]

observe_same :
    (p : PingResult) (at : ℕ) (n : PingState)
    → 0 < at
    → is_other_series p.host p.method (observation_of p.name (observe p at n)) ≡ false
observe_same p at n positive =
    rw (observed_observation p.name p.host p.method at n)
      (settled_next p.host p.method at (observation_of p.name n) positive)

started_kept :
    (p : PingResult) (at : ℕ) (n : PingState)
    → (observation_of p.name (keep_sample p.name (sample_at p at) n)).started_at
      ≡ (observation_of p.name n).started_at
started_kept p at n =
    ap (λ (o : PingObservation). o.started_at) (kept_observation p.name (sample_at p at) n)

pub same_series_samples :
    (p : PingResult) (at : ℕ) (n : PingState)
    → is_other_series p.host p.method (observation_of p.name n) ≡ false
    → samples_of p.name (observe p at n) ≡ samples_of p.name n
same_series_samples p at n same = observed_samples p.name p.host p.method at n ∙ rw same refl

-- What `newest` leaves of a series with a new sample is some of the series, and the sample.
newest_tail :
    (xs : List PingSample) (s : PingSample)
    → (k : ℕ) × (newest (xs ++ (s ∷ [])) ≡ drop k xs ++ (s ∷ []))
unfolding newest
newest_tail xs s = elim (Bool-cases (ltb preview_samples (length (xs ++ (s ∷ []))))) [
  | inr short ↦ (0, rw short refl)
  | inl long ↦ (
    length (xs ++ (s ∷ [])) - preview_samples,
    rw long (
        drop-append (length (xs ++ (s ∷ [])) - preview_samples) xs (s ∷ [])
          (omega (arith, length-append xs (s ∷ [])))),
  )
]

-- An observed series is the one before, or empty; both are what dropping leaves of it.
observed_dropped :
    (p : PingResult) (at : ℕ) (n : PingState) (k : ℕ)
    → (j : ℕ) × (drop k (samples_of p.name (observe p at n)) ≡ drop j (samples_of p.name n))
observed_dropped p at n k = elim (observed_untouched p at n) [
  | inl e ↦ (k, ap (drop k) e)
  | inr e ↦ (
    length (samples_of p.name n),
    ap (drop k) e ∙ drop_nil k ∙ sym (drop_all (samples_of p.name n)),
  )
]
  where
    drop_nil : (k : ℕ) → drop {A = PingSample} k [] ≡ []
    drop_nil zero = refl
    drop_nil (suc k) = refl

    drop_all : (xs : List PingSample) → drop (length xs) xs ≡ []
    drop_all [] = refl
    drop_all (x ∷ xs) = drop_all xs

kept-IsRecorded :
    (p : PingResult) (at : ℕ) (n : PingState)
    → 0 < at
    → IsRecorded p at (samples_of p.name n) (keep_sample p.name (sample_at p at) (observe p at n))
kept-IsRecorded p at n positive =
    let m = observe p at n in
    let (k, tail) = newest_tail (samples_of p.name m) (sample_at p at) in
    let (j, old) = observed_dropped p at n k in
    record {
      dropped = j;
      samples =
          kept_samples p.name (sample_at p at) m
          ∙ tail
          ∙ ap (λ xs. xs ++ (sample_at p at ∷ [])) old;
      bounded =
          rw (kept_samples p.name (sample_at p at) m)
            (length-newest (samples_of p.name m ++ (sample_at p at ∷ [])));
      clock =
          ap (λ (o : PingObservation). o.last_sample_at)
            (kept_observation p.name (sample_at p at) m);
      same = rw (kept_observation p.name (sample_at p at) m) (
          series_keeps_time p.host p.method at (observation_of p.name m)
            (observe_same p at n positive));
    }

not_due : (at : ℕ) (o : Option ℕ) → o ≡ some at → is_due at o ≡ false
unfolding is_due
not_due at o e = rw e (ground arith)

-- Why no sample is taken: a later one is on record, the series has one less than a sample interval
-- earlier, or the queue is full.
abbrev pub NotTaken :
    {R : Type 0}
    → R
    → PingResult
    → ℕ
    → PingState × List (HistorySample R)
    → PingState × List (HistorySample R)
    → Type 0
NotTaken no_readings p at s s' =
    (at < (observation_of p.name s.0).last_sample_at)
    ⊎ (((t : ℕ) × (last_time (samples_of p.name s'.0) ≡ some t) × (at < t + sample_interval))
        ⊎ (max_pending_history_samples ≤ length s.1))

abbrev pub Untouched :
    {R : Type 0}
    → R
    → PingResult
    → ℕ
    → PingState × List (HistorySample R)
    → PingState × List (HistorySample R)
    → Type 0
Untouched no_readings p at s s' =
    (s'.1 ≡ s.1)
    × ((samples_of p.name s'.0 ≡ samples_of p.name s.0) ⊎ (samples_of p.name s'.0 ≡ []))
    × NotTaken no_readings p at s s'

early_last :
    (at : ℕ) (o : Option ℕ)
    → is_due at o ≡ false
    → (t : ℕ) × (o ≡ some t) × (at < t + sample_interval)
unfolding is_due
early_last at none h = absurd cc
early_last at (some t) h = (t, refl, ground (arith, h))

-- One sample in the queue and in memory, both with the readings of the result.
abbrev pub Added :
    {R : Type 0}
    → R
    → String
    → PingResult
    → ℕ
    → PingState × List (HistorySample R)
    → PingState × List (HistorySample R)
    → Type 0
Added no_readings uuid p at s s' =
    (s'.1
      ≡ s.1
        ++ (record {
          uuid = uuid;
          target = p.name;
          host = p.host;
          method = p.method;
          observation_start = pos (observation_of p.name s'.0).started_at;
          timestamp = pos at;
          readings = no_readings;
          latency = p.latency;
          ping = true;
        }
            ∷ []))
    × IsRecorded p at (samples_of p.name s.0) s'.0

module _ {R : Type 0} (no_readings : R) (uuid : String) where
  due_exact :
      (p : PingResult) (at : ℕ) (n : PingState) (pending : List (HistorySample R))
      → 0 < at
      → Untouched no_readings p at
          (n, pending)
          (sample_due no_readings uuid p at (observe p at n, pending))
        ⊎ Added no_readings uuid p at
            (n, pending)
            (sample_due no_readings uuid p at (observe p at n, pending))
  due_exact p at n pending positive =
      elim (due_cases no_readings uuid p at (observe p at n) pending) [
        | inl (e, inl early) ↦ inl (
            rw e (
              refl,
              observed_untouched p at n,
              inr (inl (early_last at (last_time (samples_of p.name (observe p at n))) early)),
            ))
        | inl (e, inr full) ↦ inl (rw e (refl, observed_untouched p at n, inr (inr full)))
        | inr (due, e) ↦
            inr
              (rw e (rw (started_kept p at (observe p at n)) refl, kept-IsRecorded p at n positive))
      ]

  pub sample_result_exact :
      (p : PingResult) (received_at at : ℕ) (s : Sampled no_readings)
      → sample_time p received_at ≡ some at
      → 0 < at
      → Untouched no_readings p at s (sample_result no_readings uuid received_at p s)
        ⊎ Added no_readings uuid p at s (sample_result no_readings uuid received_at p s)
  unfolding sample_result sample_result_at
  sample_result_exact p received_at at (n, pending) timed positive =
      rw timed (elim (Bool-cases (ltb at (observation_of p.name n).last_sample_at)) [
        | inl old ↦ rw old (inl (refl, inl refl, inl (ground (arith, old))))
        | inr new ↦ rw new (due_exact p at n pending positive)
      ])
