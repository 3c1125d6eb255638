-- ===== src/Billing/CycleLaws.antt =====
-- The billing cycles of internal/store/store.go cut time into half-open intervals that meet.
use vibemonitor.Prelude.{
  ℕ, suc, ◌+◌, ◌-◌, ◌≤◌, ◌<◌, ◌≡◌, refl, ap, sym, ◌∙◌, arith, min, if◌then◌else◌, leb, ltb,
  Bool-cases, inl, inr, true, false, dec_lt,
}
use vibemonitor.Calendar.Dates.{Civil, days_in_month, day_number, IsDay}
use vibemonitor.Calendar.Months.{
  month_index, length_of, start_of, length_of_range, start_of-suc, start_of-le, day_number-month,
  length_of-month,
}
use vibemonitor.Billing.Cycle.{
  clamp_reset, clamp_day, clamped, next_boundary, previous_boundary, cycle_dates,
}

pub clamp_reset_range : (reset : ℕ) → (1 ≤ clamp_reset reset) × (clamp_reset reset ≤ 31)
unfolding clamp_reset
clamp_reset_range reset = ground arith

-- The day number of the boundary in month k.
unfoldable pub boundary : ℕ → ℕ → ℕ
boundary reset k = start_of k + (min reset (length_of k) - 1)

module _ (reset : ℕ) (reset_in : 1 ≤ reset) where
  pub boundary-lt : (j k : ℕ) → 12 ≤ j → j < k → boundary reset j < boundary reset k
  unfolding boundary
  boundary-lt j k h lt = omega (
    arith,
    start_of-suc j h,
    length_of_range j,
    start_of-le (suc j) k (omega arith) (omega arith),
  )

  -- The boundary of the month of a date.
  day_number-clamped :
      (y m : ℕ) → 1 ≤ m → m ≤ 12 → day_number (clamped y m reset) ≡ boundary reset (month_index y m)
  unfolding clamped clamp_day boundary
  day_number-clamped y m lo hi =
      day_number-month y m _ lo hi ∙ ground (arith, length_of-month y m lo hi)

  next_boundary_lem :
      (y m : ℕ)
      → m ≤ 12
      → next_boundary y m reset
        ≡ (if ltb m 12 then clamped y (m + 1) reset else clamped (y + 1) 1 reset)
  unfolding next_boundary
  next_boundary_lem y m hi = ground arith

  day_number-next :
      (y m : ℕ)
      → 1 ≤ m
      → m ≤ 12
      → day_number (next_boundary y m reset) ≡ boundary reset (suc (month_index y m))
  day_number-next y m lo hi = elim (Bool-cases (ltb m 12)) [
    | inl inside ↦
        let e : next_boundary y m reset ≡ clamped y (m + 1) reset =
          ground (arith, next_boundary_lem y m hi) in
        ap day_number e
        ∙ day_number-clamped y (m + 1) (omega arith) (ground arith)
        ∙ ap (boundary reset) (omega arith)
    | inr december ↦
        let e : next_boundary y m reset ≡ clamped (y + 1) 1 reset =
          ground (arith, next_boundary_lem y m hi) in
        ap day_number e
        ∙ day_number-clamped (y + 1) 1 (omega arith) (omega arith)
        ∙ ap (boundary reset) (ground arith)
  ]

  previous_boundary_lem :
      (y m : ℕ)
      → 1 ≤ m
      → previous_boundary y m reset
        ≡ (if ltb 1 m then clamped y (m - 1) reset else clamped (y - 1) 12 reset)
  unfolding previous_boundary
  previous_boundary_lem y m lo = ground arith

  day_number-previous :
      (y m k : ℕ)
      → 1 ≤ y
      → 1 ≤ m
      → m ≤ 12
      → suc k ≡ month_index y m
      → day_number (previous_boundary y m reset) ≡ boundary reset k
  day_number-previous y m k y_pos lo hi ek = elim (Bool-cases (ltb 1 m)) [
    | inl inside ↦
        let e : previous_boundary y m reset ≡ clamped y (m - 1) reset =
          ground (arith, previous_boundary_lem y m lo) in
        ap day_number e
        ∙ day_number-clamped y (m - 1) (ground arith) (omega arith)
        ∙ ap (boundary reset) (ground arith)
    | inr january ↦
        let e : previous_boundary y m reset ≡ clamped (y - 1) 12 reset =
          ground (arith, previous_boundary_lem y m lo) in
        ap day_number e
        ∙ day_number-clamped (y - 1) 12 (omega arith) (omega arith)
        ∙ ap (boundary reset) (ground arith)
  ]

-- The cycle from the boundary of month k to that of the next month, around day d.
pub record IsCycle (reset k d first last : ℕ) : Type 0 where
  pub first_is : first ≡ boundary reset k
  pub last_is : last ≡ boundary reset (suc k)
  pub begun : first ≤ d
  pub open_at : d < last
  pub late : 12 ≤ k

clamp_day-min : (y m reset : ℕ) → clamp_day y m reset ≡ min reset (days_in_month y m)
unfolding clamp_day
clamp_day-min y m reset = ground arith

cycle_dates_after :
    (reset : ℕ) (c : Civil)
    → leb (clamp_day c.year c.month reset) c.day ≡ true
    → cycle_dates reset c ≡ (clamped c.year c.month reset, next_boundary c.year c.month reset)
unfolding cycle_dates
cycle_dates_after reset c h = rw h refl

cycle_dates_before :
    (reset : ℕ) (c : Civil)
    → leb (clamp_day c.year c.month reset) c.day ≡ false
    → cycle_dates reset c ≡ (previous_boundary c.year c.month reset, clamped c.year c.month reset)
unfolding cycle_dates
cycle_dates_before reset c h = rw h refl

-- Where a date lies in its month.
pub date_place :
    (d : ℕ) (c : Civil)
    → IsDay d c
    → (d ≡ start_of (month_index c.year c.month) + (c.day - 1))
      × (length_of (month_index c.year c.month) ≡ days_in_month c.year c.month)
date_place d c is_day = (
  sym is_day.number
      ∙ day_number-month c.year c.month c.day is_day.valid.month_in.0 is_day.valid.month_in.1,
  length_of-month c.year c.month is_day.valid.month_in.0 is_day.valid.month_in.1,
)

module _ (reset : ℕ) (lo : 1 ≤ reset) where
  IsCycle-after :
      (d : ℕ) (c : Civil)
      → IsDay d c
      → 2 ≤ c.year
      → leb (clamp_day c.year c.month reset) c.day ≡ true
      → IsCycle reset
          (month_index c.year c.month)
          d
          (day_number (cycle_dates reset c).0)
          (day_number (cycle_dates reset c).1)
  IsCycle-after d c is_day y2 after = rw (cycle_dates_after reset c after) (record {
    first_is = first_eq;
    last_is = last_eq;
    begun =
        rw first_eq
          (unfold boundary in ground (arith, place.0, place.1, clamp_day-min c.year c.month reset));
    open_at = rw last_eq (
        unfold boundary in
        omega (
          arith,
          place.0,
          place.1,
          is_day.valid.day_in,
          start_of-suc (month_index c.year c.month) (omega arith),
        ));
    late = omega arith;
  })
    where
      place :
          (d ≡ start_of (month_index c.year c.month) + (c.day - 1))
          × (length_of (month_index c.year c.month) ≡ days_in_month c.year c.month)
      place = date_place d c is_day

      first_eq :
          day_number (clamped c.year c.month reset) ≡ boundary reset (month_index c.year c.month)
      first_eq =
          day_number-clamped reset lo c.year c.month is_day.valid.month_in.0 is_day.valid.month_in.1

      last_eq :
          day_number (next_boundary c.year c.month reset)
          ≡ boundary reset (suc (month_index c.year c.month))
      last_eq =
          day_number-next reset lo c.year c.month is_day.valid.month_in.0 is_day.valid.month_in.1

  IsCycle-before :
      (d k : ℕ) (c : Civil)
      → IsDay d c
      → 2 ≤ c.year
      → suc k ≡ month_index c.year c.month
      → leb (clamp_day c.year c.month reset) c.day ≡ false
      → IsCycle reset k d (day_number (cycle_dates reset c).0) (day_number (cycle_dates reset c).1)
  IsCycle-before d k c is_day y2 ek before = rw (cycle_dates_before reset c before) (record {
    first_is = first_eq;
    last_is = last_eq ∙ ap (boundary reset) (sym ek);
    begun = rw first_eq (
        unfold boundary in
        omega (arith, place.0, ap start_of ek, start_of-suc k late_k, length_of_range k));
    open_at = rw last_eq (
        unfold boundary in
        ground (arith, place.0, place.1, is_day.valid.day_in, clamp_day-min c.year c.month reset));
    late = late_k;
  })
    where
      late_k : 12 ≤ k
      late_k = omega (arith, is_day.valid.month_in)

      place :
          (d ≡ start_of (month_index c.year c.month) + (c.day - 1))
          × (length_of (month_index c.year c.month) ≡ days_in_month c.year c.month)
      place = date_place d c is_day

      first_eq : day_number (previous_boundary c.year c.month reset) ≡ boundary reset k
      first_eq =
          day_number-previous reset lo c.year c.month k (omega arith) is_day.valid.month_in.0
            is_day.valid.month_in.1 ek

      last_eq :
          day_number (clamped c.year c.month reset) ≡ boundary reset (month_index c.year c.month)
      last_eq =
          day_number-clamped reset lo c.year c.month is_day.valid.month_in.0 is_day.valid.month_in.1

  -- Of a day from year 2 on, `cycle_dates` gives the cycle around it.
  pub cycle_dates-IsCycle :
      (d : ℕ) (c : Civil)
      → IsDay d c
      → 2 ≤ c.year
      → (k : ℕ) × IsCycle reset k d
          (day_number (cycle_dates reset c).0)
          (day_number (cycle_dates reset c).1)
  cycle_dates-IsCycle d c is_day y2 =
      elim (Bool-cases (leb (clamp_day c.year c.month reset) c.day)) [
        | inl after ↦ (month_index c.year c.month, IsCycle-after d c is_day y2 after)
        | inr before ↦
            (month_index c.year c.month - 1, IsCycle-before d _ c is_day y2 (omega arith) before)
      ]

  -- A day lies in one cycle only.
  pub IsCycle-unique :
      (k j d a b a' b' : ℕ) → IsCycle reset k d a b → IsCycle reset j d a' b' → (a ≡ a') × (b ≡ b')
  IsCycle-unique k j d a b a' b' p q = elim (dec_lt k j) [
    | yes less ↦ absurd (overlap k j d a b a' b' p q less)
    | no ge ↦ elim (dec_lt j k) [
      | yes more ↦ absurd (overlap j k d a' b' a b q p more)
      | no le ↦
          let e : k ≡ j = omega arith in
          (
            p.first_is ∙ ap (boundary reset) e ∙ sym q.first_is,
            p.last_is ∙ ap (λ i. boundary reset (suc i)) e ∙ sym q.last_is,
          )
    ]
  ]
    where
      overlap : (k j d a b a' b' : ℕ) → IsCycle reset k d a b → IsCycle reset j d a' b' → k < j → ⊥
      overlap k j d a b a' b' p q lt = elim (dec_lt (suc k) j) [
        | yes far ↦ omega (
          arith,
          p.last_is,
          q.first_is,
          p.open_at,
          q.begun,
          boundary-lt reset lo (suc k) j (omega (arith, p.late)) far,
        )
        | no near ↦
            let e : suc k ≡ j = omega arith in
            omega (arith, p.last_is, q.first_is, p.open_at, q.begun, ap (boundary reset) e)
      ]
