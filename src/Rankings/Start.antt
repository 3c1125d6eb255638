-- ===== src/Rankings/Start.antt =====
-- `rankingStart` of internal/store/rankings.go and `resourceRollupHours` of
-- internal/store/resource_rollup_query.go.
use native.Mathlib.Nat.{le_trans}
use text.Mathlib.Text.{◌==◌ as str_eq}
use vibemonitor.Prelude.{
  ℕ, ◌+◌, ◌-◌, ◌*◌, ◌/◌, ◌%◌, ◌≤◌, ◌<◌, ◌≡◌, refl, ap, Option, none, some, String, if◌then◌else◌,
  arith, min,
}
use vibemonitor.Calendar.Dates.{
  Civil, civil, civil_of, day_number, civil_of-IsDay, days_in_month_range,
}
use vibemonitor.Calendar.Zone.{
  day_of, midnight, local_date, date_instant, midnight-le, midnight_mono, day_of-midnight,
}

-- `day.Weekday()`: 0 is a Sunday. Day 0 is a Monday.
abbrev pub weekday : ℕ → ℕ
weekday day = (day + 1) % 7

-- The midnight that a period starts at; `none` is `ErrRankingPeriod`.
unfoldable pub ranking_start : String → ℕ → Option ℕ
ranking_start period now =
    let day = day_of now in
    if str_eq period "day"
    then some (midnight day)
    else if str_eq period "week"
    then some (midnight (day - (weekday day + 6) % 7))
    else if str_eq period "month"
    then some (date_instant (civil (local_date now).year (local_date now).month 1))
    else none

-- `resourceRollupHours`: the whole hours within a range that summaries can cover.
unfoldable pub resource_rollup_hours : ℕ → ℕ → ℕ → ℕ × ℕ
resource_rollup_hours start end watermark =
    ((start + 3599) / 3600 * 3600, min (end / 3600 * 3600) (watermark / 3600 * 3600))

first_of_month :
    (now : ℕ)
    → day_number (civil (local_date now).year (local_date now).month 1) + (local_date now).day
      ≡ day_of now + 1
unfolding local_date day_number
first_of_month now =
    let d = civil_of-IsDay (day_of now) in omega (arith, d.number, d.valid.day_in.0)

date_day : (now : ℕ) → (1 ≤ (local_date now).day) × ((local_date now).day ≤ 31)
unfolding local_date
date_day now =
    let v = (civil_of-IsDay (day_of now)).valid in
    let c : Civil = civil_of (day_of now) in
    (v.day_in.0, omega (arith, v.day_in.1, days_in_month_range c.year c.month))

-- A start that a period has, on that day's midnight.
abbrev pub StartsOn : String → ℕ → ℕ → Type 0
StartsOn period now start =
    (ranking_start period now ≡ some start) × (start ≤ now) × (midnight (day_of start) ≡ start)

starts :
    (period : String) (now day : ℕ)
    → 1 ≤ day
    → day ≤ day_of now
    → ranking_start period now ≡ some (midnight day)
    → (start : ℕ) × StartsOn period now start × (day_of start ≡ day)
starts period now day positive le e =
    let same : day_of (midnight day) ≡ day = day_of-midnight day positive in
    (
      midnight day,
      (e, le_trans (midnight_mono day (day_of now) le) (midnight-le now), ap midnight same),
      same,
    )

-- At any time from February of year 1 on, the ranking of the day starts with the local day of
-- that time, the ranking of the week with the Monday not later than that and less than seven days
-- before it, and the ranking of the month with the first day of its month; each at local midnight.
ranking_start_lem :
    (now : ℕ)
    → 31 ≤ day_of now
    → ((start : ℕ) × StartsOn "day" now start × (day_of start ≡ day_of now))
      × ((start : ℕ) × StartsOn "week" now start
          × (weekday (day_of start) ≡ 1)
          × (day_of now < day_of start + 7))
      × ((start : ℕ) × StartsOn "month" now start
          × (day_of start + (local_date now).day ≡ day_of now + 1))
unfolding ranking_start date_instant
ranking_start_lem now late =
    let (d, d_on, d_day) = starts "day" now (day_of now) (omega (arith, late)) (omega arith) refl in
    let (w, w_on, w_day) =
      starts "week" now (day_of now - (weekday (day_of now) + 6) % 7) (omega (arith, late))
        (omega arith) refl in
    let (m, m_on, m_day) =
      starts "month" now (day_number (civil (local_date now).year (local_date now).month 1))
        (omega (arith, late, first_of_month now, date_day now))
        (omega (arith, first_of_month now, date_day now)) refl in
    (
      (d, d_on, d_day),
      (w, w_on, omega (arith, w_day, late), omega (arith, w_day)),
      (m, m_on, omega (arith, m_day, first_of_month now)),
    )
