-- ===== src/Examples/Billing.antt =====
-- Billing cycles and the daily traffic at concrete instants.
use vibemonitor.Prelude.{ℕ, ◌+◌, ◌*◌, ◌≡◌, refl, ap, [], ◌∷◌, arith}
use vibemonitor.Prelude.Clock.{day, second}
use vibemonitor.Calendar.Dates.{civil_of, IsDay, days_before_year, days_in_month, days_of_months}
use vibemonitor.Calendar.Zone.{day_of, midnight}
use vibemonitor.Billing.Cycle.{clamp_reset, get_billing_cycle_range}
use vibemonitor.Billing.CycleTimes.{get_billing_cycle_range_stable}
use vibemonitor.Billing.Daily.{DailyTraffic, record_daily_traffic, drop_old, cutoff_day}
use vibemonitor.Billing.DailyLaws.{total, total-record_daily_traffic}

-- Noon UTC of 31 January 2024.
abbrev noon : ℕ
noon = 738915 * day + 43200 * second

civil_of-IsDay_example : IsDay 738915 (civil_of 738915)
civil_of-IsDay_example = vibemonitor.Calendar.Dates.civil_of-IsDay 738915

range_at_noon : get_billing_cycle_range 31 noon ≡ (midnight 738915, midnight 738944)
unfolding get_billing_cycle_range civil_of clamp_reset days_before_year days_in_month days_of_months
range_at_noon = refl

stable_example : get_billing_cycle_range 31 (noon + 3 * day) ≡ get_billing_cycle_range 31 noon
unfolding midnight
stable_example =
    get_billing_cycle_range_stable 31 noon (noon + 3 * day) (omega arith) (omega arith)
      (omega (arith, ap (λ r. r.0) range_at_noon)) (omega (arith, ap (λ r. r.1) range_at_noon))

abbrev recorded : DailyTraffic
recorded = (738700, 5) ∷ (738914, 40) ∷ []

total-record_daily_traffic_example :
    total (record_daily_traffic 1000 noon (noon + 2 * day) recorded)
    ≡ total (drop_old (cutoff_day (noon + 2 * day)) recorded) + 1000
unfolding midnight cutoff_day day_of
total-record_daily_traffic_example =
    total-record_daily_traffic 1000 noon (noon + 2 * day) recorded (omega arith) (omega arith)
      (omega arith)
