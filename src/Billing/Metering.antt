-- ===== src/Billing/Metering.antt =====
-- A run of reports of one boot within one billing cycle: what `ingestReportAt` of
-- internal/store/store.go charges is what the counters grew by.
use vibemonitor.Prelude.{
  ℕ, ◌+◌, ◌*◌, ◌≤◌, ◌<◌, ◌≡◌, refl, sym, ap, ◌∙◌, true, false, List, [], ◌∷◌, String, Option, none,
  some, arith, ◌==◌, value_or,
}
use vibemonitor.Prelude.Int.{ℤ, pos}
use vibemonitor.Prelude.Clock.{minute}
use vibemonitor.Billing.Cycle.{get_billing_cycle_range}
use vibemonitor.Billing.Account.{
  Report, Node, has_negative, is_stale, keep_baseline, check_cycle_rollover, charge, account,
  note_report, ingest_traffic, boot_changed, clock_reset, selection_changed, baseline_broken,
  traffic_sample_time, traffic_delta, network_counter_delta, current_cycle_delta, counted_from,
  expire_manual,
}
use vibemonitor.Billing.AccountLaws.{str_eq_of_eq, ingest_fresh}

-- A report of aggregate counters of one boot and source, at time `at`.
abbrev pub aggregate : String → String → ℤ → ℕ → ℕ → ℕ → Report
aggregate boot source uptime at up down = record {
  updated_at = at;
  uptime = uptime;
  network = record {
    total_up = pos up;
    total_down = pos down;
    interfaces = [];
    boot_id = boot;
    source = source;
  };
}

-- What a sample brings: its time, its counters, and when it is received.
pub record Sample : Type 0 where
  pub uptime : ℤ
  pub at : ℕ
  pub up : ℕ
  pub down : ℕ
  pub received : ℕ

abbrev pub report_of : String → String → Sample → Report
report_of boot source s = aggregate boot source s.uptime s.at s.up s.down

-- Received within two minutes of its time.
abbrev pub Prompt : Sample → Type 0
Prompt s = (s.at ≤ s.received + 2 * minute) × (s.received ≤ s.at + 2 * minute)

-- The next sample is later, and no counter went back.
abbrev pub Follows : Sample → Sample → Type 0
Follows p s = (p.at < s.at) × (p.up ≤ s.up) × (p.down ≤ s.down)

-- A chain of prompt samples within the cycle of a reset day that begins at `start`.
abbrev pub Chain : ℕ → ℕ → Sample → List Sample → Type 0
Chain reset start p [] = Unit
Chain reset start p (s ∷ rest) =
    Follows p s
    × Prompt s
    × ((get_billing_cycle_range reset s.at).0 ≡ start)
    × Chain reset start s rest

abbrev pub last_of : Sample → List Sample → Sample
last_of p [] = p
last_of p (s ∷ rest) = last_of s rest

-- The node after the sample `p`, with its baseline set and nothing corrected by hand.
pub record Metered (boot source : String) (reset start : ℕ) (p : Sample) (n : Node) : Type 0 where
  pub last_report : n.last_report ≡ some (report_of boot source p)
  pub last_seen : n.last_seen ≡ p.received
  pub reset_day : n.reset_day ≡ reset
  pub set : n.traffic_baseline_set ≡ true
  pub manual : n.traffic_manual_at ≡ none
  pub cycle : n.cycle_start ≡ start
  pub up : n.last_total_up ≡ p.up
  pub down : n.last_total_down ≡ p.down
  pub prompt : Prompt p
  pub within : start ≤ p.at

-- All samples, in order; a refused one would leave the node.
unfoldable pub ingest_all : (ℕ → ℕ → ℕ → ℕ) → String → String → List Sample → Node → Node
ingest_all prorate boot source [] n = n
ingest_all prorate boot source (s ∷ rest) n =
    ingest_all prorate boot source rest
      (value_or n (ingest_traffic prorate (report_of boot source s) s.received n))

plain : (boot source : String) (s : Sample) → has_negative (report_of boot source s).network ≡ false
unfolding has_negative
plain boot source s = ground arith

fresh :
    (boot source : String) (p s : Sample)
    → p.at < s.at
    → is_stale (some (report_of boot source p)) (report_of boot source s) ≡ false
unfolding is_stale boot_changed clock_reset
fresh boot source p s lt = ground (arith, lt)

kept :
    (boot source : String) (p s : Sample)
    → p.at < s.at
    → keep_baseline (some (report_of boot source p)) (report_of boot source s) true ≡ true
unfolding keep_baseline baseline_broken boot_changed clock_reset selection_changed
kept boot source p s lt =
    rw (str_eq_of_eq boot boot refl, str_eq_of_eq source source refl) (ground (arith, lt))

sampled :
    (boot source : String) (s : Sample) (fallback : ℕ)
    → 0 < s.at
    → Prompt s
    → fallback ≡ s.received
    → traffic_sample_time (some (report_of boot source s)) fallback ≡ s.at
unfolding traffic_sample_time
sampled boot source s fallback positive prompt e = ground (arith, positive, prompt, e)

stay :
    (now : ℕ) (n : Node)
    → 0 < n.cycle_start
    → (get_billing_cycle_range n.reset_day now).0 ≡ n.cycle_start
    → check_cycle_rollover now n ≡ n
unfolding check_cycle_rollover
stay now n positive e = ground (arith, positive, e)

delta_of :
    (boot source : String) (p s : Sample) (n : Node)
    → Follows p s
    → n.traffic_baseline_set ≡ true
    → n.last_total_up ≡ p.up
    → n.last_total_down ≡ p.down
    → traffic_delta (some (report_of boot source p)) (report_of boot source s) n + p.up + p.down
      ≡ s.up + s.down
unfolding traffic_delta network_counter_delta
delta_of boot source p s n follows set up down = ground (arith, follows, set, up, down)

-- The node after the next sample.
module _ (prorate : ℕ → ℕ → ℕ → ℕ) (boot source : String) (reset start : ℕ) (positive : 0 < start)
    (resets : 0 < reset) where
  in_cycle :
      (delta previous_at current_at : ℕ)
      → start ≤ previous_at
      → previous_at < current_at
      → current_cycle_delta prorate delta (counted_from start none) previous_at current_at ≡ delta
  unfolding current_cycle_delta counted_from
  in_cycle delta previous_at current_at within order = ground (arith, within, order, positive)

  noted : Sample → Node → Node
  noted s n = note_report (report_of boot source s) s.received n

  noted_set :
      (p s : Sample) (n : Node)
      → Metered boot source reset start p n
      → p.at < s.at
      → (noted s n).traffic_baseline_set ≡ true
  unfolding noted note_report
  noted_set p s n m lt =
      ap (λ o. keep_baseline o (report_of boot source s) n.traffic_baseline_set) m.last_report
      ∙ ap (keep_baseline (some (report_of boot source p)) (report_of boot source s)) m.set
      ∙ kept boot source p s lt

  account-charge :
      (previous : Option Report) (report : Report) (a t : ℕ) (k : Node)
      → 0 < k.reset_day
      → check_cycle_rollover t k ≡ k
      → account prorate previous report a t k ≡ charge prorate previous report a t k
  unfolding account
  account-charge previous report a t k resets_at same =
      let on : (k.reset_day == 0) ≡ false = ground (arith, resets_at) in
      rw on (ap (charge prorate previous report a t) same)

  charged : Sample → Sample → Node → Node
  charged p s n =
      charge prorate (some (report_of boot source p)) (report_of boot source s) p.at s.at
        (noted s n)

  ingest_charged :
      (p s : Sample) (n : Node)
      → Metered boot source reset start p n
      → Follows p s
      → Prompt s
      → (get_billing_cycle_range reset s.at).0 ≡ start
      → value_or n (ingest_traffic prorate (report_of boot source s) s.received n) ≡ charged p s n
  unfolding charged noted note_report
  ingest_charged p s n m follows prompt cycle =
      ap (value_or n) (
        ingest_fresh prorate (report_of boot source s) s.received n (plain boot source s) (
          ap (λ o. is_stale o (report_of boot source s)) m.last_report
          ∙ fresh boot source p s follows.0))
      ∙ ap
          (λ o.
            account prorate o (report_of boot source s) (traffic_sample_time o n.last_seen)
              (traffic_sample_time (some (report_of boot source s)) s.received) (noted s n))
          m.last_report
      ∙ ap
          (λ t.
            account prorate (some (report_of boot source p)) (report_of boot source s) t
              (traffic_sample_time (some (report_of boot source s)) s.received) (noted s n))
          (sampled boot source p n.last_seen (omega (arith, positive, m.within)) m.prompt
            m.last_seen)
      ∙ ap
          (λ t.
            account prorate (some (report_of boot source p)) (report_of boot source s) p.at t
              (noted s n))
          (sampled boot source s s.received (omega (arith, follows)) prompt refl)
      ∙ account-charge (some (report_of boot source p)) (report_of boot source s) p.at s.at
          (noted s n) (omega (arith, resets, m.reset_day))
          (stay s.at (noted s n) (omega (arith, positive, m.cycle))
            (ap (λ d. (get_billing_cycle_range d s.at).0) m.reset_day ∙ cycle ∙ sym m.cycle))

  charged_used :
      (p s : Sample) (n : Node)
      → Metered boot source reset start p n
      → Follows p s
      → (charged p s n).current_cycle_used + p.up + p.down ≡ n.current_cycle_used + s.up + s.down
  unfolding charged charge noted note_report
  charged_used p s n m follows =
      let delta =
        traffic_delta (some (report_of boot source p)) (report_of boot source s) (noted s n) in
      let full : current_cycle_delta prorate delta (counted_from n.cycle_start n.traffic_manual_at)
            p.at s.at
          ≡ delta =
        ap (λ c. current_cycle_delta prorate delta (counted_from c n.traffic_manual_at) p.at s.at)
          m.cycle
        ∙ ap (λ o. current_cycle_delta prorate delta (counted_from start o) p.at s.at) m.manual
        ∙ in_cycle delta p.at s.at m.within follows.0 in
      omega (
        arith,
        full,
        delta_of boot source p s (noted s n) follows (noted_set p s n m follows.0) m.up m.down,
      )

  charged-Metered :
      (p s : Sample) (n : Node)
      → Metered boot source reset start p n
      → Follows p s
      → Prompt s
      → Metered boot source reset start s (charged p s n)
  unfolding charged charge noted note_report expire_manual
  charged-Metered p s n m follows prompt = record {
    last_report = refl;
    last_seen = refl;
    reset_day = m.reset_day;
    set = refl;
    manual = ap (expire_manual s.at) m.manual;
    cycle = m.cycle;
    up = refl;
    down = refl;
    prompt = prompt;
    within = omega (arith, m.within, follows);
  }

  -- From a set baseline on, a run of samples of one boot and source, in order, with counters that do not
  -- fall, received within two minutes of their times, all in the cycle of the node, charges the cycle
  -- exactly what the counters grew by.
  pub ingest_all-used :
      (p : Sample) (samples : List Sample) (n : Node)
      → Metered boot source reset start p n
      → Chain reset start p samples
      → (ingest_all prorate boot source samples n).current_cycle_used + p.up + p.down
        ≡ n.current_cycle_used + (last_of p samples).up + (last_of p samples).down
  unfolding ingest_all
  ingest_all-used p [] n m chain = refl
  ingest_all-used p (s ∷ rest) n m chain =
      let (follows, prompt, cycle, onward) = chain in
      let next = charged p s n in
      ap (λ k. (ingest_all prorate boot source rest k).current_cycle_used + p.up + p.down)
        (ingest_charged p s n m follows prompt cycle)
      ∙ omega (
        arith,
        ingest_all-used s rest next (charged-Metered p s n m follows prompt) onward,
        charged_used p s n m follows,
      )
