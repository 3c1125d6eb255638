-- ===== src/Ping/SamplesAgain.antt =====
-- Results that agents repeat (internal/store/store.go): a measurement that is in the series of its
-- target already.
use vibemonitor.Prelude.{
  ℕ, ◌≤◌, ◌<◌, ◌≡◌, ◌≢◌, refl, ap, ◌∙◌, sym, false, List, [], ◌∷◌, Option, some, none, arith, ltb,
  drop, String, All, Bool-cases, inl, inr, ◌⊎◌,
}
use mathlib.Core.Path.{subst}
use text.Mathlib.TextEquality.{eq_iff}
use vibemonitor.Prelude.Assoc.{String_discrete}
use vibemonitor.Store.Queue.{HistorySample}
use vibemonitor.Ping.Results.{PingResult}
use vibemonitor.Ping.Window.{PingSample}
use vibemonitor.Ping.Samples.{
  PingObservation, PingState, samples_of, observation_of, is_other_series, adopt_method, last_time,
  is_due, sample_at, keep_sample, sample_time, Sampled, sample_due, sample_result_at, sample_result,
}
use vibemonitor.Ping.Spaced.{last_time-append, last_time-newest}
use vibemonitor.Ping.SamplesLaws.{
  observed_next, observed_observation, observed_elsewhere, kept_samples, kept_observation,
  kept_elsewhere, due_cases,
}
use vibemonitor.Ping.SamplesRuns.{
  observe, IsRecorded, sample_of, same_series_samples, series_keeps_time, sample_result_exact,
}

-- The series of a target, with its last sample on record, at a time not before `at`.
record IsPast (name host method : String) (at : ℕ) (n : PingState) : Type 0 where
  last : last_time (samples_of name n) ≡ some (observation_of name n).last_sample_at
  clock : at ≤ (observation_of name n).last_sample_at
  same : is_other_series host method (observation_of name n) ≡ false

IsRecorded-IsPast :
    (p : PingResult) (at : ℕ) (old : List PingSample) (n : PingState)
    → IsRecorded p at old n
    → IsPast p.name p.host p.method at n
IsRecorded-IsPast p at old n held = record {
  last =
      ap last_time held.samples
      ∙ last_time-append (drop held.dropped old) (sample_of p at)
      ∙ ap some (sym held.clock);
  clock = omega (arith, held.clock);
  same = held.same;
}

same_next :
    (host method : String) (t : ℕ) (o : PingObservation)
    → is_other_series host method o ≡ false
    → 0 < t
    → (is_other_series host method (observed_next host method t o) ≡ false)
      × ((observed_next host method t o).last_sample_at ≡ o.last_sample_at)
unfolding observed_next is_other_series adopt_method
same_next host method t o same positive =
    ground (arith, same, positive, eq_iff host host, eq_iff method method, eq_iff o.host host)

observe-IsPast :
    (q : PingResult) (t at : ℕ) (n : PingState)
    → 0 < t
    → IsPast q.name q.host q.method at n
    → IsPast q.name q.host q.method at (observe q t n)
      × ((observation_of q.name (observe q t n)).last_sample_at
          ≡ (observation_of q.name n).last_sample_at)
observe-IsPast q t at n positive past =
    let (goes_on, time) =
      same_next q.host q.method t (observation_of q.name n) past.same positive in
    let seen = observed_observation q.name q.host q.method t n in
    let kept : (observation_of q.name (observe q t n)).last_sample_at
        ≡ (observation_of q.name n).last_sample_at =
      ap (λ (o : PingObservation). o.last_sample_at) seen ∙ time in
    (
      record {
        last = ap last_time (same_series_samples q t n past.same) ∙ past.last ∙ ap some (sym kept);
        clock = omega (arith, kept, past.clock);
        same = ap (is_other_series q.host q.method) seen ∙ goes_on;
      },
      kept,
    )

kept-IsPast :
    (q : PingResult) (t at : ℕ) (n : PingState)
    → at ≤ t
    → IsPast q.name q.host q.method at n
    → IsPast q.name q.host q.method at (keep_sample q.name (sample_at q t) n)
kept-IsPast q t at n le past =
    let e = kept_observation q.name (sample_at q t) n in
    let time = ap (λ (o : PingObservation). o.last_sample_at) e in
    record {
      last =
          ap last_time (kept_samples q.name (sample_at q t) n)
          ∙ last_time-newest (samples_of q.name n) (sample_at q t)
          ∙ ap some (sym time);
      clock = omega (arith, le, time);
      same =
          ap (is_other_series q.host q.method) e
          ∙ series_keeps_time q.host q.method t (observation_of q.name n) past.same;
    }

-- A result of another name, or of the same host and method.
abbrev pub Follows : PingResult → PingResult → Type 0
Follows p q = (q.name ≢ p.name) ⊎ ((q.host ≡ p.host) × (q.method ≡ p.method))

-- What happens between two rounds for a result.
pub data Event (R : Type 0) : Type 0 where
  result : (received_at : ℕ) (p : PingResult) → Event R
  requeue : (pending : List (HistorySample R)) → Event R

abbrev pub Keeps : {R : Type 0} → PingResult → Event R → Type 0
Keeps p (result received_at q) = Follows p q
Keeps p (requeue pending) = Unit

module _ {R : Type 0} (no_readings : R) (uuid : String) where
  own-IsPast :
      (q : PingResult) (o : Option ℕ) (at : ℕ) (s : Sampled no_readings)
      → 0 < at
      → IsPast q.name q.host q.method at s.0
      → IsPast q.name q.host q.method at (sample_result_at no_readings uuid q o s).0
  unfolding sample_result_at
  own-IsPast q none at s positive past = past
  own-IsPast q (some t) at (n, pending) positive past =
      elim (Bool-cases (ltb t (observation_of q.name n).last_sample_at)) [
        | inl old ↦ rw old past
        | inr new ↦
            let le : at ≤ t = ground (arith, new, past.clock) in
            let (seen, time) = observe-IsPast q t at n (omega (arith, le, positive)) past in
            rw new (elim (due_cases no_readings uuid q t (observe q t n) pending) [
              | inl (e, why) ↦ rw e seen
              | inr (due, e) ↦ rw e (kept-IsPast q t at (observe q t n) le seen)
            ])
      ]

  other-IsPast :
      (q : PingResult) (o : Option ℕ) (name host method : String) (at : ℕ) (s : Sampled no_readings)
      → q.name ≢ name
      → IsPast name host method at s.0
      → IsPast name host method at (sample_result_at no_readings uuid q o s).0
  unfolding sample_result_at
  other-IsPast q none name host method at s ne past = past
  other-IsPast q (some t) name host method at (n, pending) ne past =
      let (h, o) = observed_elsewhere q.name name q.host q.method t n ne in
      let (h', o') = kept_elsewhere q.name name (sample_at q t) (observe q t n) ne in
      elim (Bool-cases (ltb t (observation_of q.name n).last_sample_at)) [
        | inl old ↦ rw old past
        | inr new ↦ rw new (elim (due_cases no_readings uuid q t (observe q t n) pending) [
          | inl (e, why) ↦ rw e (moved n (observe q t n) name host method at h o past)
          | inr (due, e) ↦ rw e (
              moved n (keep_sample q.name (sample_at q t) (observe q t n)) name host method at
                (h' ∙ h) (o' ∙ o) past)
        ])
      ]
    where
      moved :
          (n m : PingState) (name host method : String) (at : ℕ)
          → samples_of name m ≡ samples_of name n
          → observation_of name m ≡ observation_of name n
          → IsPast name host method at n
          → IsPast name host method at m
      moved n m name host method at h o past = record {
        last =
            ap last_time h
            ∙ past.last
            ∙ ap (λ (x : PingObservation). some x.last_sample_at) (sym o);
        clock = subst (λ (x : PingObservation). at ≤ x.last_sample_at) (sym o) past.clock;
        same = ap (is_other_series host method) o ∙ past.same;
      }

  -- Rounds of the loop over results, each with the time at which its report was received, and what
  -- happens to the queue: after an event of this kind it is as given.
  unfoldable pub sample_rounds : List (Event R) → Sampled no_readings → Sampled no_readings
  sample_rounds [] s = s
  sample_rounds (result received_at q ∷ rounds) s =
      sample_rounds rounds (sample_result no_readings uuid received_at q s)
  sample_rounds (requeue pending ∷ rounds) (n, _) = sample_rounds rounds (n, pending)

  Follows-IsPast :
      (p q : PingResult) (received_at at : ℕ) (s : Sampled no_readings)
      → 0 < at
      → Follows p q
      → IsPast p.name p.host p.method at s.0
      → IsPast p.name p.host p.method at (sample_result no_readings uuid received_at q s).0
  unfolding sample_result
  Follows-IsPast p q received_at at s positive follows past = elim (String_discrete q.name p.name) [
    | no ne ↦ other-IsPast q (sample_time q received_at) p.name p.host p.method at s ne past
    | yes e ↦ elim follows [
      | inl ne ↦ absurd (ne e)
      | inr (host, method) ↦
          rw (sym e, sym host, sym method)
            (own-IsPast q (sample_time q received_at) at s positive (rw (e, host, method) past))
    ]
  ]

  rounds-IsPast :
      (p : PingResult) (at : ℕ) (rounds : List (Event R)) (s : Sampled no_readings)
      → 0 < at
      → All (Keeps p) rounds
      → IsPast p.name p.host p.method at s.0
      → IsPast p.name p.host p.method at (sample_rounds rounds s).0
  unfolding sample_rounds
  rounds-IsPast p at [] s positive follow past = past
  rounds-IsPast p at (requeue pending ∷ rounds) (n, _) positive follow past =
      rounds-IsPast p at rounds (n, pending) positive follow.1 past
  rounds-IsPast p at (result received_at q ∷ rounds) s positive follow past =
      rounds-IsPast p at rounds (sample_result no_readings uuid received_at q s) positive follow.1
        (Follows-IsPast p q received_at at s positive follow.0 past)

  not_due : (at : ℕ) (o : Option ℕ) → o ≡ some at → is_due at o ≡ false
  unfolding is_due
  not_due at o e = rw e (ground arith)

  again_at :
      (p : PingResult) (at : ℕ) (s : Sampled no_readings)
      → IsPast p.name p.host p.method at s.0
      → ((sample_result_at no_readings uuid p (some at) s).1 ≡ s.1)
        × (samples_of p.name (sample_result_at no_readings uuid p (some at) s).0
            ≡ samples_of p.name s.0)
  unfolding sample_result_at sample_due
  again_at p at (n, pending) past =
      elim (Bool-cases (ltb at (observation_of p.name n).last_sample_at)) [
        | inl old ↦ rw old (refl, refl)
        | inr new ↦
            let now : (observation_of p.name n).last_sample_at ≡ at =
              ground (arith, new, past.clock) in
            rw
              (
                new,
                not_due at (last_time (samples_of p.name (observe p at n)))
                    (ap last_time (same_series_samples p at n past.same) ∙ past.last ∙ ap some now),
              )
              (refl, same_series_samples p at n past.same)
      ]

  -- A measurement that was sampled is not sampled again when a later report repeats it: the queue and
  -- the series stay as they are. In between may come any results of other names, and any of the same
  -- name with the same host and method, while the queue is changed in any way; but no result that starts
  -- another series of the name, and no pruning.
  pub sample_result_again :
      (p : PingResult) (received_at later at : ℕ) (between : List (Event R))
      (s : Sampled no_readings)
      → sample_time p received_at ≡ some at
      → sample_time p later ≡ some at
      → 0 < at
      → (sample_result no_readings uuid received_at p s).1 ≢ s.1
      → All (Keeps p) between
      → ((sample_result no_readings uuid later p
            (sample_rounds between (sample_result no_readings uuid received_at p s))).1
          ≡ (sample_rounds between (sample_result no_readings uuid received_at p s)).1)
        × (samples_of p.name
              (sample_result no_readings uuid later p
                (sample_rounds between (sample_result no_readings uuid received_at p s))).0
            ≡ samples_of p.name
                (sample_rounds between (sample_result no_readings uuid received_at p s)).0)
  sample_result_again p received_at later at between s timed timed_later positive added follow =
      elim (sample_result_exact no_readings uuid p received_at at s timed positive) [
        | inl (same, _, _) ↦ absurd (added same)
        | inr (_, held) ↦
            later_again p later at
              (sample_rounds between (sample_result no_readings uuid received_at p s)) timed_later
              (rounds-IsPast p at between (sample_result no_readings uuid received_at p s) positive
                follow (IsRecorded-IsPast p at (samples_of p.name s.0) _ held))
      ]
    where
      later_again :
          (p : PingResult) (later at : ℕ) (s : Sampled no_readings)
          → sample_time p later ≡ some at
          → IsPast p.name p.host p.method at s.0
          → ((sample_result no_readings uuid later p s).1 ≡ s.1)
            × (samples_of p.name (sample_result no_readings uuid later p s).0
                ≡ samples_of p.name s.0)
      later_again p later at s timed_later past =
          unfold sample_result in rw timed_later (again_at p at s past)
