-- ===== src/Alerts/TargetsLaws.antt =====
-- What a complete set of results of internal/server/telegram_ping.go says of its targets.
use vibemonitor.Prelude.{
  ℕ, ◌≡◌, ◌≢◌, refl, ap, ◌∙◌, true, false, List, [], ◌∷◌, Option, none, some, arith, All,
  Bool-cases, Option-cases, some-injective, inl, inr, ◌<◌, ◌≤◌, ◌⊎◌, ◌||◌, ltb, ◌==◌, sym,
}
use mathlib.Core.List.{Mem, mem-cons_self, mem-cons_of_mem}
use vibemonitor.Prelude.Int.{pos, pos_part, ltb_ℤ}
use vibemonitor.Store.Queue.{Target}
use vibemonitor.Ping.Results.{PingResult}
use vibemonitor.Alerts.Targets.{
  fresh_at, earlier, find_result, is_unknown, Probe, note_result, probe_result, probe_targets,
  all_targets_ping,
}

-- The target has a fresh result, and it timed out.
abbrev pub TimedOut : ℕ → List PingResult → Target → Type 0
TimedOut now results t =
    (r : PingResult) × (find_result t results ≡ some r)
    × (fresh_at now r ≡ true)
    × (ltb_ℤ r.latency (pos 0) ≡ true)

timed_out :
    (p : Probe) (r : PingResult)
    → (note_result p r).all_timeout ≡ true
    → (p.all_timeout ≡ true) × (ltb_ℤ r.latency (pos 0) ≡ true)
unfolding note_result
timed_out p r h = elim (Bool-cases (ltb_ℤ r.latency (pos 0))) [
  | inl low ↦ (rw low at h, low)
  | inr high ↦ absurd (let e = (rw high at h) in cc)
]

known_fresh : (now : ℕ) (r : PingResult) → is_unknown now r ≡ false → fresh_at now r ≡ true
unfolding is_unknown
known_fresh now r h = ground (arith, h)

known :
    (now : ℕ) (p p' : Probe) (found : Option PingResult)
    → probe_result now p found ≡ some p'
    → p'.all_timeout ≡ true
    → (p.all_timeout ≡ true)
      × ((r : PingResult) × (found ≡ some r)
          × (fresh_at now r ≡ true)
          × (ltb_ℤ r.latency (pos 0) ≡ true))
unfolding probe_result
known now p p' none h timeout = absurd cc
known now p p' (some r) h timeout = elim (Bool-cases (is_unknown now r)) [
  | inl bad ↦ absurd (let e = (rw bad at h) in cc)
  | inr good ↦
      let e = some-injective (rw good at h) in
      let (before, low) = timed_out p r (ap (λ q. q.all_timeout) e ∙ timeout) in
      (before, (r, refl, known_fresh now r good, low))
]

TimedOut-probe_targets :
    (now : ℕ) (results : List PingResult) (targets : List Target) (p p' : Probe)
    → probe_targets now results targets p ≡ some p'
    → p'.all_timeout ≡ true
    → (p.all_timeout ≡ true) × All (TimedOut now results) targets
unfolding probe_targets
TimedOut-probe_targets now results [] p p' h timeout =
    (ap (λ q. q.all_timeout) (some-injective h) ∙ timeout, tt)
TimedOut-probe_targets now results (t ∷ targets) p p' h timeout =
    elim (Option-cases (probe_result now p (find_result t results))) [
      | inl missing ↦ absurd (let e = (rw (missing, probe_targets) at h) in cc)
      | inr (q, one) ↦
          let (before, rest) =
            TimedOut-probe_targets now results targets q p' (rw (one, probe_targets) at h)
              timeout in
          let (first, found) = known now p q (find_result t results) one before in
          (first, (found, rest))
    ]

-- When the last report tells that all targets timed out, there is a target, and every target has a
-- result of its name and host in the report that is fresh and has a negative latency.
pub all_targets_ping-TimedOut :
    (now : ℕ) (targets : List Target) (results : Option (List PingResult)) (p : Probe)
    → all_targets_ping now targets results ≡ some p
    → p.all_timeout ≡ true
    → (targets ≢ [])
      × ((rs : List PingResult) × (results ≡ some rs) × All (TimedOut now rs) targets)
unfolding all_targets_ping
all_targets_ping-TimedOut now [] results p h timeout = absurd cc
all_targets_ping-TimedOut now (t ∷ targets) none p h timeout = absurd cc
all_targets_ping-TimedOut now (t ∷ targets) (some rs) p h timeout =
    ((λ e. cc), (rs, refl, (TimedOut-probe_targets now rs (t ∷ targets) _ p h timeout).1))

known_positive : (now : ℕ) (r : PingResult) → fresh_at now r ≡ true → 0 < pos_part r.measured_at
unfolding fresh_at
known_positive now r h = ground (arith, h)

noted_time :
    (now : ℕ) (p p' : Probe) (found : Option PingResult)
    → probe_result now p found ≡ some p'
    → (r : PingResult) × (found ≡ some r)
      × (fresh_at now r ≡ true)
      × (p'.measured_at ≡ earlier p.measured_at (pos_part r.measured_at))
unfolding probe_result note_result
noted_time now p p' none h = absurd cc
noted_time now p p' (some r) h = elim (Bool-cases (is_unknown now r)) [
  | inl bad ↦ absurd (let e = (rw bad at h) in cc)
  | inr good ↦
      let e = some-injective (rw good at h) in
      (r, refl, known_fresh now r good, ap (λ q. q.measured_at) (sym e))
]

earlier_first : (at : ℕ) → earlier 0 at ≡ at
unfolding earlier
earlier_first at = refl

earlier_cases :
    (before at : ℕ)
    → 0 < before
    → 0 < at
    → (0 < earlier before at)
      × (earlier before at ≤ before)
      × (earlier before at ≤ at)
      × ((earlier before at ≡ before) ⊎ (earlier before at ≡ at))
unfolding earlier
earlier_cases before at h k = elim (Bool-cases (before == 0 || ltb at before)) [
  | inl new ↦ rw new (k, ground (arith, h, new), omega arith, inr refl)
  | inr old ↦ rw old (h, omega arith, ground (arith, h, old), inl refl)
]

-- The time is that of the target's result, or not later than it.
abbrev pub TimeOf : List PingResult → ℕ → Target → Type 0
TimeOf results at t =
    (r : PingResult) × (find_result t results ≡ some r) × (at ≡ pos_part r.measured_at)

abbrev pub NoLater : List PingResult → ℕ → Target → Type 0
NoLater results at t =
    (r : PingResult) × (find_result t results ≡ some r) × (at ≤ pos_part r.measured_at)

-- The time is that of the oldest of the targets' results.
pub record IsOldest (results : List PingResult) (targets : List Target) (at : ℕ) : Type 0 where
  pub target : Target
  pub member : Mem target targets
  pub time : TimeOf results at target
  pub lower : All (NoLater results at) targets

probe_targets_time :
    (now : ℕ) (results : List PingResult) (targets : List Target) (p p' : Probe)
    → probe_targets now results targets p ≡ some p'
    → 0 < p.measured_at
    → (p'.measured_at ≤ p.measured_at)
      × All (NoLater results p'.measured_at) targets
      × ((p'.measured_at ≡ p.measured_at)
          ⊎ ((t : Target) × Mem t targets × TimeOf results p'.measured_at t))
unfolding probe_targets
probe_targets_time now results [] p p' h positive =
    let e = ap (λ q. q.measured_at) (some-injective h) in (omega (arith, e), tt, inl (sym e))
probe_targets_time now results (t ∷ targets) p p' h positive =
    elim (Option-cases (probe_result now p (find_result t results))) [
      | inl missing ↦ absurd (let e = (rw (missing, probe_targets) at h) in cc)
      | inr (q, one) ↦
          let (r, found, fresh, e) = noted_time now p q (find_result t results) one in
          let (some_time, le, at_most, which) =
            earlier_cases p.measured_at (pos_part r.measured_at) positive
              (known_positive now r fresh) in
          let (less, rest, chosen) =
            probe_targets_time now results targets q p' (rw (one, probe_targets) at h)
              (omega (arith, e, some_time)) in
          (
            omega (arith, less, e, le),
            ((r, found, omega (arith, less, e, at_most)), rest),
            elim chosen [
              | inr (t', member, time) ↦ inr (t', mem-cons_of_mem t member, time)
              | inl kept ↦ elim which [
                | inl old ↦ inl (kept ∙ e ∙ old)
                | inr new ↦ inr (t, mem-cons_self, (r, found, kept ∙ e ∙ new))
              ]
            ],
          )
    ]

-- The time of a complete set of results is that of the oldest.
pub all_targets_ping-IsOldest :
    (now : ℕ) (targets : List Target) (rs : List PingResult) (p : Probe)
    → all_targets_ping now targets (some rs) ≡ some p
    → IsOldest rs targets p.measured_at
unfolding all_targets_ping probe_targets
all_targets_ping-IsOldest now [] rs p h = absurd cc
all_targets_ping-IsOldest now (t ∷ targets) rs p h =
    elim (Option-cases (probe_result now start (find_result t rs))) [
      | inl missing ↦ absurd (let e = (rw (missing, probe_targets) at h) in cc)
      | inr (q, one) ↦
          let (r, found, fresh, e) = noted_time now start q (find_result t rs) one in
          let time : q.measured_at ≡ pos_part r.measured_at =
            e ∙ earlier_first (pos_part r.measured_at) in
          let (less, rest, chosen) =
            probe_targets_time now rs targets q p (rw (one, probe_targets) at h)
              (omega (arith, time, known_positive now r fresh)) in
          let all : All (NoLater rs p.measured_at) (t ∷ targets) =
            ((r, found, omega (arith, less, time)), rest) in
          elim chosen [
            | inl same ↦ record {
              target = t;
              member = mem-cons_self;
              time = (r, found, same ∙ time);
              lower = all;
            }
            | inr (t', member, of) ↦ record {
              target = t';
              member = mem-cons_of_mem t member;
              time = of;
              lower = all;
            }
          ]
    ]
  where
    start : Probe
    start = record { all_timeout = true; measured_at = 0 }
