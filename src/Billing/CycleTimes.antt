-- ===== src/Billing/CycleTimes.antt =====
-- `GetBillingCycleRange` of internal/store/store.go on instants: its cycles contain the instant,
-- do not depend on where in the cycle it is, and meet end to end.
use vibemonitor.Prelude.{ℕ, suc, ◌+◌, ◌*◌, ◌≤◌, ◌<◌, ◌≡◌, refl, ap, sym, ◌∙◌, arith, dec_lt}
use mathlib.Core.Path.{ap₂}
use vibemonitor.Prelude.Clock.{day}
use vibemonitor.Calendar.Dates.{
  Civil, civil_of, day_number, IsDay, civil_of-IsDay, days_before_year, days_of_months,
}
use vibemonitor.Calendar.Months.{month_index, start_of, length_of_range, start_of-suc, start_of-le}
use vibemonitor.Calendar.Zone.{
  day_of, midnight, midnight-le_of_day, lt-midnight_of_day, day_of-ge_of_midnight,
  day_of-lt_of_midnight, day_of-midnight,
}
use vibemonitor.Billing.Cycle.{clamp_reset, cycle_dates, get_billing_cycle_range}
use vibemonitor.Billing.CycleLaws.{
  clamp_reset_range, boundary, boundary-lt, IsCycle, cycle_dates-IsCycle, IsCycle-unique,
  date_place,
}

-- From the second year of the calendar on no boundary falls before the first instant.
abbrev pub epoch : ℕ
epoch = 2 * 366 * day

year_two_starts : start_of 24 ≡ 365
unfolding start_of days_before_year days_of_months
year_two_starts = refl

year_two : (d : ℕ) (c : Civil) → IsDay d c → 732 ≤ d → 2 ≤ c.year
year_two d c is_day late = elim (dec_lt c.year 2) [
  | no later ↦ omega arith
  | yes first_year ↦
      let k = month_index c.year c.month in
      absurd (
        omega (
          arith,
          date_place d c is_day,
          is_day.valid.day_in,
          start_of-suc k (omega (arith, is_day.valid.year_in)),
          start_of-le (suc k) 24 (omega (arith, is_day.valid.year_in))
              (omega (arith, is_day.valid.month_in)),
          year_two_starts,
        ))
]

late_day : (now : ℕ) → epoch ≤ now → 732 ≤ day_of now
unfolding day_of
late_day now h = omega arith

-- The cycle of an instant, with the month that it starts in.
record CycleOf (reset_day now : ℕ) : Type 0 where
  month : ℕ
  first : ℕ
  last : ℕ
  cycle : IsCycle (clamp_reset reset_day) month (day_of now) first last
  range_is : get_billing_cycle_range reset_day now ≡ (midnight first, midnight last)

range_lem :
    (reset_day now : ℕ)
    → get_billing_cycle_range reset_day now ≡ (
      midnight (day_number (cycle_dates (clamp_reset reset_day) (civil_of (day_of now))).0),
      midnight (day_number (cycle_dates (clamp_reset reset_day) (civil_of (day_of now))).1),
    )
unfolding get_billing_cycle_range
range_lem reset_day now = refl

cycle_of : (reset_day now : ℕ) → epoch ≤ now → CycleOf reset_day now
cycle_of reset_day now late =
    let is_day = civil_of-IsDay (day_of now) in
    let (k, cycle) =
      cycle_dates-IsCycle (clamp_reset reset_day) (clamp_reset_range reset_day).0 (day_of now)
        (civil_of (day_of now)) is_day (year_two _ _ is_day (late_day now late)) in
    record { month = k; first = _; last = _; cycle = cycle; range_is = range_lem reset_day now }

-- From the third year of the calendar on, an instant lies in its cycle, the start included and the
-- end not.
get_billing_cycle_range_contains :
    (reset_day now : ℕ)
    → epoch ≤ now
    → ((get_billing_cycle_range reset_day now).0 ≤ now)
      × (now < (get_billing_cycle_range reset_day now).1)
get_billing_cycle_range_contains reset_day now late =
    let c = cycle_of reset_day now late in
    rw c.range_is
      (midnight-le_of_day c.first now c.cycle.begun, lt-midnight_of_day c.last now c.cycle.open_at)

-- Two instants of one cycle.
same_cycle :
    (reset_day s t : ℕ) (c : CycleOf reset_day s) (e : CycleOf reset_day t)
    → c.first ≤ day_of t
    → day_of t < c.last
    → get_billing_cycle_range reset_day t ≡ get_billing_cycle_range reset_day s
same_cycle reset_day s t c e begun open_at =
    let moved : IsCycle (clamp_reset reset_day) c.month (day_of t) c.first c.last = record {
      first_is = c.cycle.first_is;
      last_is = c.cycle.last_is;
      begun = begun;
      open_at = open_at;
      late = c.cycle.late;
    } in
    let (firsts, lasts) =
      IsCycle-unique (clamp_reset reset_day) (clamp_reset_range reset_day).0 _ _ _ _ _ _ _ e.cycle
        moved in
    e.range_is ∙ ap₂ (λ a b. (midnight a, midnight b)) firsts lasts ∙ sym c.range_is

-- From the third year of the calendar on, every instant from the start of a cycle to its end has
-- that cycle.
pub get_billing_cycle_range_stable :
    (reset_day now t : ℕ)
    → epoch ≤ now
    → epoch ≤ t
    → (get_billing_cycle_range reset_day now).0 ≤ t
    → t < (get_billing_cycle_range reset_day now).1
    → get_billing_cycle_range reset_day t ≡ get_billing_cycle_range reset_day now
get_billing_cycle_range_stable reset_day now t late late_t begun open_at =
    let c = cycle_of reset_day now late in
    same_cycle reset_day now t c (cycle_of reset_day t late_t)
      (day_of-ge_of_midnight c.first t (rw c.range_is at begun))
      (day_of-lt_of_midnight c.last t (rw c.range_is at open_at))

-- From the third year of the calendar on, the cycle of the end of a cycle starts at that end: no
-- instant is billed twice or not at all.
get_billing_cycle_range_meets :
    (reset_day now : ℕ)
    → epoch ≤ now
    → (get_billing_cycle_range reset_day (get_billing_cycle_range reset_day now).1).0
      ≡ (get_billing_cycle_range reset_day now).1
get_billing_cycle_range_meets reset_day now late =
    let reset = clamp_reset reset_day in
    let c = cycle_of reset_day now late in
    let at_end : day_of (midnight c.last) ≡ c.last =
      day_of-midnight c.last (omega (arith, c.cycle.open_at)) in
    let contains = get_billing_cycle_range_contains reset_day now late in
    let end_late : epoch ≤ midnight c.last = omega (arith, ap (λ r. r.1) c.range_is, contains) in
    let e = cycle_of reset_day (midnight c.last) end_late in
    let follows : IsCycle reset (suc c.month) (day_of (midnight c.last)) c.last
        (boundary reset (suc (suc c.month))) =
      record {
        first_is = c.cycle.last_is;
        last_is = refl;
        begun = omega (arith, at_end);
        open_at = omega (
          arith,
          at_end,
          c.cycle.last_is,
          c.cycle.late,
          boundary-lt reset (clamp_reset_range reset_day).0 (suc c.month) (suc (suc c.month))
              (omega (arith, c.cycle.late)) (omega arith),
        );
        late = omega (arith, c.cycle.late);
      } in
    let (firsts, lasts) =
      IsCycle-unique reset (clamp_reset_range reset_day).0 _ _ _ _ _ _ _ e.cycle follows in
    ap (λ t. (get_billing_cycle_range reset_day t).0) (ap (λ r. r.1) c.range_is)
    ∙ ap (λ r. r.0) e.range_is
    ∙ ap midnight firsts
    ∙ sym (ap (λ r. r.1) c.range_is)

-- From the third year of the calendar on, a cycle has 28 to 31 days.
get_billing_cycle_range_length :
    (reset_day now : ℕ)
    → epoch ≤ now
    → ((get_billing_cycle_range reset_day now).0 + 28 * day
        ≤ (get_billing_cycle_range reset_day now).1)
      × ((get_billing_cycle_range reset_day now).1
          ≤ (get_billing_cycle_range reset_day now).0 + 31 * day)
unfolding boundary midnight
get_billing_cycle_range_length reset_day now late =
    let c = cycle_of reset_day now late in
    rw c.range_is (
      omega (
        arith,
        c.cycle.first_is,
        c.cycle.last_is,
        c.cycle.late,
        clamp_reset_range reset_day,
        length_of_range c.month,
        length_of_range (suc c.month),
        start_of-suc c.month c.cycle.late,
        late_day now late,
        c.cycle.open_at,
      ))
