-- ===== src/Calendar/Dates.antt =====
-- Civil dates and day numbers. Day 0 is January 1 of year 1. `civil_of` is what `t.Date()`
-- computes from a day number, and `day_number` what `time.Date` starts from.
use vibemonitor.Prelude.{
  ℕ, zero, suc, ◌+◌, ◌-◌, ◌*◌, ◌/◌, ◌%◌, ◌≤◌, ◌<◌, ◌≡◌, refl, Bool, not, ◌&&◌, ◌||◌, ap,
  if◌then◌else◌, leb, ◌==◌, arith, Bool-cases, inl, inr,
}

pub record Civil : Type 0 where
  pub year : ℕ
  pub month : ℕ
  pub day : ℕ

abbrev pub civil : ℕ → ℕ → ℕ → Civil
civil y m d = record { year = y; month = m; day = d }

unfoldable pub is_leap : ℕ → Bool
is_leap y = (y % 4 == 0 && not (y % 100 == 0)) || y % 400 == 0

unfoldable pub days_in_month : ℕ → ℕ → ℕ
unfolding is_leap
days_in_month y m =
    if m == 2
    then (if is_leap y then 29 else 28)
    else if m == 4 || m == 6 || m == 9 || m == 11
    then 30
    else 31

-- The days of the years before year y, for y ≥ 1.
unfoldable pub days_before_year : ℕ → ℕ
days_before_year y = (y - 1) * 365 + (y - 1) / 4 - (y - 1) / 100 + (y - 1) / 400

-- The days of the first n months of year y.
unfoldable pub days_of_months : ℕ → ℕ → ℕ
days_of_months y zero = 0
days_of_months y (suc n) = days_of_months y n + days_in_month y (suc n)

unfoldable pub day_number : Civil → ℕ
day_number c = days_before_year c.year + days_of_months c.year (c.month - 1) + (c.day - 1)

-- The year of day d, searched from y on.
unfoldable pub find_year : ℕ → ℕ → ℕ → ℕ
find_year zero y d = y
find_year (suc fuel) y d =
    let later = find_year fuel (suc y) d in if leb (days_before_year (suc y)) d then later else y

unfoldable pub year_of : ℕ → ℕ
unfolding find_year
year_of d = find_year (d + 2) (d / 366 + 1) d

-- The month that holds day `rest` of year y, when n months come before `rest` began to count.
unfoldable pub find_month : ℕ → ℕ → ℕ → ℕ → Civil
find_month zero y n rest = civil y (suc n) (rest + 1)
find_month (suc fuel) y n rest =
    let later = find_month fuel y (suc n) (rest - days_in_month y (suc n)) in
    if leb (days_in_month y (suc n)) rest then later else civil y (suc n) (rest + 1)

unfoldable pub civil_of : ℕ → Civil
unfolding year_of find_month
civil_of d = find_month 11 (year_of d) 0 (d - days_before_year (year_of d))

pub record IsCivil (c : Civil) : Type 0 where
  pub year_in : 1 ≤ c.year
  pub month_in : (1 ≤ c.month) × (c.month ≤ 12)
  pub day_in : (1 ≤ c.day) × (c.day ≤ days_in_month c.year c.month)

pub days_in_month_range : (y m : ℕ) → (28 ≤ days_in_month y m) × (days_in_month y m ≤ 31)
unfolding days_in_month
days_in_month_range y m = ground arith

year_days : (y : ℕ) → days_of_months y 12 ≡ (if is_leap y then 366 else 365)
unfolding days_of_months days_in_month
year_days y = ground arith

pub next_year :
    (y : ℕ) → 1 ≤ y → days_before_year (suc y) ≡ days_before_year y + days_of_months y 12
unfolding days_before_year is_leap
next_year y h = ground (arith, year_days y)

find_year_lem :
    (fuel y d : ℕ)
    → 1 ≤ y
    → days_before_year y ≤ d
    → d < days_before_year (y + fuel)
    → (1 ≤ find_year fuel y d)
      × (days_before_year (find_year fuel y d) ≤ d)
      × (d < days_before_year (suc (find_year fuel y d)))
unfolding find_year
find_year_lem zero y d h lo hi =
    let e : y + 0 ≡ y = omega arith in absurd (omega (arith, ap days_before_year e))
find_year_lem (suc fuel) y d h lo hi =
    let e : y + suc fuel ≡ suc y + fuel = omega arith in
    let hi' : d < days_before_year (suc y + fuel) = omega (arith, ap days_before_year e) in
    elim (Bool-cases (leb (days_before_year (suc y)) d)) [
      | inl more ↦ rw more (find_year_lem fuel (suc y) d (omega arith) (ground arith) hi')
      | inr stop ↦ rw stop (h, lo, ground arith)
    ]

days_before_year-ge : (y : ℕ) → 365 * (y - 1) ≤ days_before_year y
unfolding days_before_year
days_before_year-ge y = omega arith

days_before_year-le : (p : ℕ) → days_before_year (p + 1) ≤ 366 * p
unfolding days_before_year
days_before_year-le p = omega arith

year_of_lem :
    (d : ℕ)
    → (1 ≤ year_of d)
      × (days_before_year (year_of d) ≤ d)
      × (d < days_before_year (suc (year_of d)))
unfolding year_of
year_of_lem d =
    find_year_lem (d + 2) (d / 366 + 1) d (omega arith)
      (omega (arith, days_before_year-le (d / 366)))
      (omega (arith, days_before_year-ge (d / 366 + 1 + (d + 2))))

-- The date is one of the calendar, and its number is d.
pub record IsDay (d : ℕ) (c : Civil) : Type 0 where
  pub valid : IsCivil c
  pub number : day_number c ≡ d

IsDay-at :
    (y n rest d : ℕ)
    → 1 ≤ y
    → n ≤ 11
    → rest < days_in_month y (suc n)
    → d ≡ days_before_year y + (days_of_months y n + rest)
    → IsDay d (civil y (suc n) (rest + 1))
unfolding day_number
IsDay-at y n rest d h le lt e =
    let m : suc n - 1 ≡ n = omega arith in
    record { valid = omega arith; number = omega (arith, ap (days_of_months y) m) }

pub months_step :
    (y n : ℕ) → days_of_months y (suc n) ≡ days_of_months y n + days_in_month y (suc n)
unfolding days_of_months
months_step y n = refl

find_month-IsDay :
    (fuel y n rest d : ℕ)
    → 1 ≤ y
    → n + fuel ≡ 11
    → days_of_months y n + rest < days_of_months y 12
    → d ≡ days_before_year y + (days_of_months y n + rest)
    → IsDay d (find_month fuel y n rest)
unfolding find_month
find_month-IsDay zero y n rest d h e lt eq =
    let last : n ≡ 11 = omega arith in
    let sum : days_of_months y 12 ≡ days_of_months y n + days_in_month y (suc n) =
      rw last (months_step y 11) in
    IsDay-at y n rest d h (omega arith) (omega arith) eq
find_month-IsDay (suc fuel) y n rest d h e lt eq =
    elim (Bool-cases (leb (days_in_month y (suc n)) rest)) [
      | inl more ↦
          let le : days_in_month y (suc n) ≤ rest = ground arith in
          rw more (
            find_month-IsDay fuel y (suc n) (rest - days_in_month y (suc n)) d h (omega arith)
              (omega (arith, months_step y n)) (omega (arith, months_step y n)))
      | inr stop ↦ rw stop (IsDay-at y n rest d h (omega arith) (ground arith) eq)
    ]

civil_of_lem : (d : ℕ) → civil_of d ≡ find_month 11 (year_of d) 0 (d - days_before_year (year_of d))
unfolding civil_of
civil_of_lem d = refl

pub no_months : (y : ℕ) → days_of_months y 0 ≡ 0
unfolding days_of_months
no_months y = refl

-- `t.Date()` gives a date of the calendar, and `time.Date` leads back from it.
pub civil_of-IsDay : (d : ℕ) → IsDay d (civil_of d)
civil_of-IsDay d =
    let (y_pos, lo, hi) = year_of_lem d in
    rw (civil_of_lem d) (
      find_month-IsDay 11 (year_of d) 0 _ d y_pos refl
        (omega (arith, no_months (year_of d), next_year (year_of d) y_pos))
        (omega (arith, no_months (year_of d))))
