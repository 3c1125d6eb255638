-- ===== src/Examples/Alerts.antt =====
-- Deliveries and thresholds on short runs.
use vibemonitor.Prelude.{
  ℕ, ◌+◌, ◌*◌, ◌-◌, ◌≤◌, ◌≡◌, ◌≢◌, refl, ap, [], ◌∷◌, arith, true, false, List, String, ◌⊎◌, inl,
  inr,
}
use vibemonitor.Prelude.Assoc.{String_discrete, lookup}
use vibemonitor.Prelude.Clock.{second, minute}
use text.Mathlib.Text.{◌==◌ as str_eq}
use vibemonitor.Alerts.Delivery.{Retries, deliver, delay, sustained_threshold, since_after, alert}
use vibemonitor.Alerts.DeliveryLaws.{Step, call, forget, steps, deliver_spaced}
use vibemonitor.Alerts.Sustained.{
  Tick, Watch, watched, after_tick, calls_sender, HighAfter, calls_sender-sustained,
}

abbrev retries : Retries
retries = ("n1:cpu", record { failures = 2; next = 5 * minute }) ∷ []

abbrev between : List Step
between =
    call "n1:memory" (7 * minute) false
    ∷ forget "n1:memory"
    ∷ call "n1:cpu" (6 * minute + second) true
    ∷ []

abbrev memory_kind : String
memory_kind = "n1:memory"

memory_cpu : memory_kind ≢ "n1:cpu"
memory_cpu e =
    let differ : str_eq "n1:memory" "n1:cpu" ≡ false = refl in
    let same : str_eq "n1:memory" "n1:cpu" ≡ true = ap (λ s. str_eq s "n1:cpu") e in cc

deliver_spaced_example :
    deliver "n1:cpu"
      (7 * minute)
      true
      (steps between (deliver "n1:cpu" (6 * minute) false retries).table)
    ≡ record {
      table = steps between (deliver "n1:cpu" (6 * minute) false retries).table;
      delivered = false;
      tried = false;
    }
unfolding lookup String_discrete delay
deliver_spaced_example =
    deliver_spaced "n1:cpu" (6 * minute) (7 * minute) true between retries (omega arith)
      (inl memory_cpu, (memory_cpu, (inr (omega arith), tt))) (omega arith)

abbrev tick : ℕ → Tick
tick s = record {
  now = s * second;
  unix = s;
  sent = true;
  reading = record { below = false; recovered = false };
}

abbrev calm : Watch
calm = record { level = record { active = false; since = 0; last_alert = 0 }; table = [] }

calls_sender-sustained_example :
    HighAfter (140 - 30) (tick 140 ∷ tick 120 ∷ tick 100 ∷ [])
    × (((watched "cpu" (tick 120 ∷ tick 100 ∷ []) calm).level.last_alert ≡ 0)
        ⊎ ((watched "cpu" (tick 120 ∷ tick 100 ∷ []) calm).level.last_alert + 300 ≤ 140))
unfolding calls_sender watched after_tick sustained_threshold since_after deliver alert lookup
calls_sender-sustained_example =
    calls_sender-sustained "cpu" calm refl (tick 140) (tick 120 ∷ tick 100 ∷ [])
      (omega arith, omega arith, (omega arith, omega arith, tt)) refl
