-- ===== src/Examples/Reports.antt =====
-- The accounting of reports on two samples within one billing cycle.
use vibemonitor.Prelude.{
  false, ℕ, ◌+◌, ◌*◌, ◌-◌, ◌/◌, ◌≡◌, refl, [], ◌∷◌, arith, true, List, some, none,
}
use vibemonitor.Prelude.Int.{pos}
use vibemonitor.Prelude.Clock.{day, hour, second, minute}
use vibemonitor.Calendar.Dates.{civil_of, days_before_year, days_in_month, days_of_months}
use vibemonitor.Billing.Cycle.{clamp_reset, get_billing_cycle_range}
use vibemonitor.Billing.Account.{
  Node, ingest_traffic, has_negative, is_stale, account, note_report, keep_baseline, charge,
  check_cycle_rollover, traffic_delta, traffic_sample_time, current_cycle_delta, expire_manual,
}
use vibemonitor.Billing.Daily.{record_daily_traffic}
use vibemonitor.Billing.AccountLaws.{ingest_traffic_again}
use vibemonitor.Billing.Metering.{Sample, report_of, ingest_all, ingest_all-used}

-- Noon UTC of 31 January 2024, and the start of its cycle.
abbrev noon : ℕ
noon = 738915 * day + 43200 * second

abbrev start : ℕ
start = 738915 * day - 8 * hour

abbrev sample : ℕ → ℕ → ℕ → Sample
sample after up down = record {
  uptime = pos after;
  at = noon + after * second;
  up = up;
  down = down;
  received = noon + after * second + second;
}

abbrev first : Sample
first = sample 0 1000 4000

abbrev later : List Sample
later = sample 3 1500 4000 ∷ sample 6 1800 4700 ∷ []

abbrev node : Node
node = record {
  last_report = some (report_of "boot" "eth0" first);
  last_seen = first.received;
  reset_day = 31;
  initial_used = 0;
  current_cycle_used = 20;
  cycle_start = start;
  traffic_manual_at = none;
  last_total_up = 1000;
  last_total_down = 4000;
  traffic_baseline_set = true;
  daily_traffic = [];
}

abbrev estimate : ℕ → ℕ → ℕ → ℕ
estimate delta part whole = (2 * delta * part + whole) / (2 * whole)

at_3 : (get_billing_cycle_range 31 (noon + 3 * second)).0 ≡ start
unfolding get_billing_cycle_range civil_of clamp_reset days_before_year days_in_month days_of_months
at_3 = refl

at_6 : (get_billing_cycle_range 31 (noon + 6 * second)).0 ≡ start
unfolding get_billing_cycle_range civil_of clamp_reset days_before_year days_in_month days_of_months
at_6 = refl

ingest_all-used_example :
    (ingest_all estimate "boot" "eth0" later node).current_cycle_used + 1000 + 4000
    ≡ 20 + 1800 + 4700
ingest_all-used_example =
    ingest_all-used estimate "boot" "eth0" 31 start (omega arith) (omega arith) first later node
      (record {
        last_report = refl;
        last_seen = refl;
        reset_day = refl;
        set = refl;
        manual = refl;
        cycle = refl;
        up = refl;
        down = refl;
        prompt = omega arith;
        within = omega arith;
      })
      (omega arith, omega arith, at_3, (omega arith, omega arith, at_6, tt))

-- A node whose first report is to come.
abbrev silent : Node
silent = record node { last_report = none; traffic_baseline_set = false }

abbrev heard : Node
heard = record node { last_seen = noon }

first_report : ingest_traffic estimate (report_of "boot" "eth0" first) noon silent ≡ some heard
unfolding ingest_traffic has_negative is_stale account note_report keep_baseline charge
    check_cycle_rollover traffic_delta record_daily_traffic get_billing_cycle_range
    traffic_sample_time civil_of clamp_reset days_before_year days_in_month days_of_months
    current_cycle_delta expire_manual
first_report = refl

ingest_traffic_again_example :
    ingest_traffic estimate (report_of "boot" "eth0" first) (noon + minute) heard ≡ some heard
ingest_traffic_again_example =
    ingest_traffic_again estimate (report_of "boot" "eth0" first) noon (noon + minute) silent heard
      (omega arith) first_report
