-- ===== src/Billing/Cycle.antt =====
-- `GetBillingCycleRange` of internal/store/store.go and `trafficHistoryRange` of
-- internal/store/traffic_history.go. A negative reset day would act as 0 does.
use vibemonitor.Prelude.{ℕ, ◌+◌, ◌-◌, if◌then◌else◌, leb, ltb, Option, some, none}
use vibemonitor.Calendar.Dates.{Civil, civil, days_in_month}
use vibemonitor.Calendar.Zone.{local_date, date_instant}

-- The two `if`s at the start.
unfoldable pub clamp_reset : ℕ → ℕ
clamp_reset reset = if ltb reset 1 then 1 else if ltb 31 reset then 31 else reset

-- The closure `clampDay`. `time.Date(y, m+1, 0, …).Day()` is the length of month m.
unfoldable pub clamp_day : ℕ → ℕ → ℕ → ℕ
clamp_day y m target = if ltb (days_in_month y m) target then days_in_month y m else target

unfoldable pub clamped : ℕ → ℕ → ℕ → Civil
unfolding clamp_day
clamped y m reset = civil y m (clamp_day y m reset)

-- `nextYear, nextMonth` and `prevYear, prevMonth` with their wraps.
unfoldable pub next_boundary : ℕ → ℕ → ℕ → Civil
unfolding clamped
next_boundary y m reset =
    if ltb 12 (m + 1) then clamped (y + 1) 1 reset else clamped y (m + 1) reset

unfoldable pub previous_boundary : ℕ → ℕ → ℕ → Civil
unfolding clamped
previous_boundary y m reset =
    if ltb (m - 1) 1 then clamped (y - 1) 12 reset else clamped y (m - 1) reset

-- The first and the last boundary of the cycle, as dates.
unfoldable pub cycle_dates : ℕ → Civil → Civil × Civil
unfolding next_boundary previous_boundary
cycle_dates reset today =
    if leb (clamp_day today.year today.month reset) today.day
    then (clamped today.year today.month reset, next_boundary today.year today.month reset)
    else (previous_boundary today.year today.month reset, clamped today.year today.month reset)

unfoldable pub get_billing_cycle_range : ℕ → ℕ → ℕ × ℕ
unfolding clamp_reset cycle_dates local_date date_instant
get_billing_cycle_range reset_day now =
    let (first, last) = cycle_dates (clamp_reset reset_day) (local_date now) in
    (date_instant first, date_instant last)

pub data RangeName : Type 0 where
  current previous three unknown : RangeName

-- `trafficHistoryRange`; `start.Add(-time.Nanosecond)` is the last instant of the cycle before.
unfoldable pub traffic_history_range : ℕ → RangeName → ℕ → Option (ℕ × ℕ)
unfolding get_billing_cycle_range
traffic_history_range reset current now = some (get_billing_cycle_range reset now)
traffic_history_range reset previous now =
    let (start, end_at) = get_billing_cycle_range reset now in
    some ((get_billing_cycle_range reset (start - 1)).0, start)
traffic_history_range reset three now =
    let (start, end_at) = get_billing_cycle_range reset now in
    let one_back = (get_billing_cycle_range reset (start - 1)).0 in
    some ((get_billing_cycle_range reset (one_back - 1)).0, end_at)
traffic_history_range reset unknown now = none
