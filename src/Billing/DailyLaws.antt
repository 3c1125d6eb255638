-- ===== src/Billing/DailyLaws.antt =====
-- The split by days of internal/store/traffic_history.go loses no byte.
use vibemonitor.Prelude.{
  ℕ, zero, suc, ◌+◌, ◌-◌, ◌/◌, ◌≤◌, ◌<◌, ◌≡◌, refl, ap, ◌∙◌, [], ◌∷◌, arith, dec_lt,
}
use native.Mathlib.Nat.{div-mul-le_self, le-div_iff_mul-le, mul-div_cancel, mul-le-mul_left}
use vibemonitor.Prelude.Assoc.{lookup, insert}
use vibemonitor.Calendar.Zone.{day_of, midnight, lt-midnight_of_day, day_of-midnight, day_of_mono}
use vibemonitor.Billing.Daily.{
  DailyTraffic, add_to, portion, piece_end, spread, cutoff_day, drop_old, first_instant,
  record_daily_traffic,
}

-- All bytes on record.
unfoldable pub total : DailyTraffic → ℕ
total [] = 0
total ((day, bytes) ∷ daily) = bytes + total daily

total-add_to : (k v : ℕ) (m : DailyTraffic) → total (add_to k v m) ≡ total m + v
unfolding total add_to insert lookup
total-add_to k v [] = omega arith
total-add_to k v ((j, w) ∷ m) = ground (arith, total-add_to k v m)

div_mono : (k : ℕ) {a b : ℕ} → 0 < k → a ≤ b → a / k ≤ b / k
div_mono k {a} {b} h le = (le-div_iff_mul-le h).1 (omega (arith, le, div-mul-le_self a k))

module _ (delta previous current : ℕ) (order : previous < current) where
  portion_mono :
      (a b : ℕ) → a ≤ b → portion delta previous current a ≤ portion delta previous current b
  unfolding portion
  portion_mono a b h =
      div_mono (current - previous) (omega (arith, order))
        (mul-le-mul_left delta (omega (arith, h)))

  portion_current : portion delta previous current current ≡ delta
  unfolding portion
  portion_current = mul-div_cancel delta (omega (arith, order))

  portion_previous : portion delta previous current previous ≡ 0
  unfolding portion
  portion_previous = grind arith

  piece_end_range :
      (start : ℕ)
      → start < current
      → (start < piece_end start current) × (piece_end start current ≤ current)
  unfolding piece_end
  piece_end_range start lt = ground (arith, lt-midnight_of_day (day_of start + 1) start)

  -- Another piece follows only on a later day.
  piece_end_day :
      (start : ℕ)
      → start < current
      → piece_end start current < current
      → day_of (piece_end start current) ≡ day_of start + 1
  unfolding piece_end
  piece_end_day start lt more = ground (arith, day_of-midnight (day_of start + 1))

  portion_end :
      (start : ℕ)
      → start ≤ current
      → ¬ (start < current)
      → portion delta previous current start ≡ delta
  portion_end start hi ge =
      ap (portion delta previous current) (omega (arith, hi, ge)) ∙ portion_current

  spread_stop :
      (fuel start : ℕ) (daily : DailyTraffic)
      → ¬ (start < current)
      → spread fuel delta previous current start daily ≡ daily
  unfolding spread
  spread_stop zero start daily ge = refl
  spread_stop (suc fuel) start daily ge = ground (arith, ge)

  share : ℕ → ℕ
  share start =
      portion delta previous current (piece_end start current)
      - portion delta previous current start

  spread_step :
      (fuel start : ℕ) (daily : DailyTraffic)
      → start < current
      → spread (suc fuel) delta previous current start daily
        ≡ spread fuel delta previous current
            (piece_end start current)
            (add_to (day_of start) (share start) daily)
  unfolding spread share
  spread_step fuel start daily lt = ground (arith, lt)

  share_lem :
      (start : ℕ)
      → start < current
      → share start + portion delta previous current start
        ≡ portion delta previous current (piece_end start current)
  unfolding share
  share_lem start lt = omega (
    arith,
    portion_mono start (piece_end start current) (omega (arith, piece_end_range start lt)),
  )

  fuel_step :
      (fuel start : ℕ)
      → start < current
      → day_of current < day_of start + suc fuel
      → piece_end start current < current
      → day_of current < day_of (piece_end start current) + fuel
  fuel_step fuel start lt f more = omega (arith, f, piece_end_day start lt more)

  spread_rest :
      (fuel start : ℕ) (daily : DailyTraffic)
      → start < current
      → total (
            spread fuel delta previous current
              (piece_end start current)
              (add_to (day_of start) (share start) daily))
          + portion delta previous current (piece_end start current)
        ≡ total (add_to (day_of start) (share start) daily) + delta
      → total (
            spread fuel delta previous current
              (piece_end start current)
              (add_to (day_of start) (share start) daily))
          + portion delta previous current start
        ≡ total daily + delta
  spread_rest fuel start daily lt rest =
      omega (arith, rest, total-add_to (day_of start) (share start) daily, share_lem start lt)

  total_stop :
      (fuel start : ℕ) (daily : DailyTraffic)
      → start ≤ current
      → ¬ (start < current)
      → total (spread fuel delta previous current start daily)
          + portion delta previous current start
        ≡ total daily + delta
  total_stop fuel start daily hi ge =
      ap (λ d. total d + portion delta previous current start) (spread_stop fuel start daily ge)
      ∙ ap (λ n. total daily + n) (portion_end start hi ge)

  total-spread :
      (fuel start : ℕ) (daily : DailyTraffic)
      → start ≤ current
      → (start < current → day_of current < day_of start + fuel)
      → total (spread fuel delta previous current start daily)
          + portion delta previous current start
        ≡ total daily + delta
  total-spread zero start daily hi f =
      total_stop zero start daily hi (λ lt. omega (arith, f lt, day_of_mono start current hi))
  total-spread (suc fuel) start daily hi f = elim (dec_lt start current) [
    | yes lt ↦
        ap (λ d. total d + portion delta previous current start) (spread_step fuel start daily lt)
        ∙ spread_rest fuel start daily lt (
            total-spread fuel (piece_end start current) (add_to (day_of start) (share start) daily)
              ((piece_end_range start lt).1) (fuel_step fuel start lt (f lt)))
    | no ge ↦ total_stop (suc fuel) start daily hi ge
  ]

first_instant_recent :
    (previous cutoff : ℕ) → midnight cutoff ≤ previous → first_instant previous cutoff ≡ previous
unfolding first_instant
first_instant_recent previous cutoff h = ground (arith, h)

record_recent :
    (delta previous current : ℕ) (daily : DailyTraffic)
    → 0 < previous
    → previous < current
    → midnight (cutoff_day current) ≤ previous
    → record_daily_traffic delta previous current daily
      ≡ spread
          (day_of current - day_of previous + 1)
          delta
          previous
          current
          previous
          (drop_old (cutoff_day current) daily)
unfolding record_daily_traffic
record_recent delta previous current daily positive order recent =
    ground (arith, positive, order, recent)

-- A delta between two samples of which the older lies within the retention is recorded to the last
-- byte: the days kept hold what they held, and together they gain the delta, however many days
-- the interval spans.
pub total-record_daily_traffic :
    (delta previous current : ℕ) (daily : DailyTraffic)
    → 0 < previous
    → previous < current
    → midnight (cutoff_day current) ≤ previous
    → total (record_daily_traffic delta previous current daily)
      ≡ total (drop_old (cutoff_day current) daily) + delta
total-record_daily_traffic delta previous current daily positive order recent = omega (
  arith,
  ap total (record_recent delta previous current daily positive order recent),
  total-spread delta previous current order (day_of current - day_of previous + 1) previous
      (drop_old (cutoff_day current) daily) (omega (arith, order)) (λ _. omega arith),
  portion_previous delta previous current order,
)
