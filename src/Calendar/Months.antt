-- ===== src/Calendar/Months.antt =====
-- Months counted in one line, 12 to a year, and the day numbers at which they start.
use vibemonitor.Prelude.{
  ℕ, zero, suc, ◌+◌, ◌-◌, ◌*◌, ◌/◌, ◌%◌, ◌≤◌, ◌≡◌, refl, ap, ◌∙◌, arith, dec_lt,
}
use vibemonitor.Calendar.Dates.{
  civil, days_in_month, days_before_year, days_of_months, day_number, next_year, months_step,
  days_in_month_range, no_months,
}

-- Month k is month k % 12 + 1 of year k / 12.
abbrev pub month_index : ℕ → ℕ → ℕ
month_index y m = y * 12 + (m - 1)

pub length_of : ℕ → ℕ
length_of k = days_in_month (k / 12) (suc (k % 12))

-- The number of the day before which `days` days of month k have passed.
unfoldable pub start_of : ℕ → ℕ
start_of k = days_before_year (k / 12) + days_of_months (k / 12) (k % 12)

pub length_of_range : (k : ℕ) → (28 ≤ length_of k) × (length_of k ≤ 31)
unfolding length_of
length_of_range k = days_in_month_range _ _

start_of_at :
    (k y n : ℕ) → k / 12 ≡ y → k % 12 ≡ n → start_of k ≡ days_before_year y + days_of_months y n
unfolding start_of
start_of_at k y n ey en = rw (ey, en) refl

length_of_at : (k y n : ℕ) → k / 12 ≡ y → k % 12 ≡ n → length_of k ≡ days_in_month y (suc n)
unfolding length_of
length_of_at k y n ey en = rw (ey, en) refl

-- A month ends where the next one starts, in December too.
pub start_of-suc : (k : ℕ) → 12 ≤ k → start_of (suc k) ≡ start_of k + length_of k
start_of-suc k h = elim (dec_lt (k % 12) 11) [
  | yes inside ↦ omega (
    arith,
    start_of_at k (k / 12) (k % 12) refl refl,
    length_of_at k (k / 12) (k % 12) refl refl,
    start_of_at (suc k) (k / 12) (suc (k % 12)) (omega arith) (omega arith),
    months_step (k / 12) (k % 12),
  )
  | no december ↦ omega (
    arith,
    start_of_at k (k / 12) 11 refl (omega arith),
    length_of_at k (k / 12) 11 refl (omega arith),
    start_of_at (suc k) (suc (k / 12)) 0 (omega arith) (omega arith),
    months_step (k / 12) 11,
    next_year (k / 12) (omega arith),
    no_months (suc (k / 12)),
  )
]

start_of_mono : (k n : ℕ) → 12 ≤ k → start_of k ≤ start_of (k + n)
start_of_mono k zero h = let e : k + 0 ≡ k = omega arith in omega (arith, ap start_of e)
start_of_mono k (suc n) h =
    let e : k + suc n ≡ suc (k + n) = omega arith in
    omega (arith, ap start_of e, start_of-suc (k + n) (omega arith), start_of_mono k n h)

pub start_of-le : (j k : ℕ) → 12 ≤ j → j ≤ k → start_of j ≤ start_of k
start_of-le j k h le =
    let e : j + (k - j) ≡ k = omega arith in omega (arith, ap start_of e, start_of_mono j (k - j) h)

-- The day number of a date, by its month.
pub day_number-month :
    (y m d : ℕ) → 1 ≤ m → m ≤ 12 → day_number (civil y m d) ≡ start_of (month_index y m) + (d - 1)
unfolding day_number
day_number-month y m d lo hi =
    omega (arith, start_of_at (month_index y m) y (m - 1) (omega arith) (omega arith))

pub length_of-month : (y m : ℕ) → 1 ≤ m → m ≤ 12 → length_of (month_index y m) ≡ days_in_month y m
length_of-month y m lo hi =
    let e : suc (m - 1) ≡ m = omega arith in
    length_of_at (month_index y m) y (m - 1) (omega arith) (omega arith) ∙ ap (days_in_month y) e
