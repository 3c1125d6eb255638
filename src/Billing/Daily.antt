-- ===== src/Billing/Daily.antt =====
-- `recordDailyTraffic` of internal/store/traffic_history.go. `DailyTraffic` maps a local day to
-- bytes; the source's keys "2006-01-02" order as the day numbers do here. A delta is a sum of
-- counter differences, which are not negative, so `delta < 0` never holds.
use vibemonitor.Prelude.{
  ℕ, zero, suc, ◌+◌, ◌-◌, ◌*◌, ◌/◌, not, ◌||◌, List, if◌then◌else◌, leb, value_or, ℕ_discrete,
}
use vibemonitor.Prelude.Assoc.{lookup, insert, retain}
use vibemonitor.Prelude.Clock.{is_zero, after, before}
use vibemonitor.Calendar.Zone.{day_of, midnight}

abbrev pub retention_days : ℕ
retention_days = 180

abbrev pub DailyTraffic : Type 0
DailyTraffic = List (ℕ × ℕ)

-- `m[k] += v`
unfoldable pub add_to : ℕ → ℕ → DailyTraffic → DailyTraffic
add_to k v m = insert ℕ_discrete k (value_or 0 (lookup ℕ_discrete k m) + v) m

-- The closure `portion`: 128-bit product and division, which do not overflow for an instant
-- between the two samples.
unfoldable pub portion : ℕ → ℕ → ℕ → ℕ → ℕ
portion delta previous current at = delta * (at - previous) / (current - previous)

-- The end of the piece that starts at `start`.
unfoldable pub piece_end : ℕ → ℕ → ℕ
piece_end start current =
    let end_at = midnight (day_of start + 1) in if after end_at current then current else end_at

-- The loop, with fuel for the days from `start` to `current`.
unfoldable pub spread : ℕ → ℕ → ℕ → ℕ → ℕ → DailyTraffic → DailyTraffic
spread zero delta previous current start daily = daily
spread (suc fuel) delta previous current start daily =
    let end_at = piece_end start current in
    let share = portion delta previous current end_at - portion delta previous current start in
    let onward = spread fuel delta previous current end_at (add_to (day_of start) share daily) in
    if before start current then onward else daily

unfoldable pub cutoff_day : ℕ → ℕ
cutoff_day current = day_of current - retention_days

unfoldable pub drop_old : ℕ → DailyTraffic → DailyTraffic
drop_old cutoff daily = retain (λ date _. leb cutoff date) daily

-- `start`, moved up to the cutoff.
unfoldable pub first_instant : ℕ → ℕ → ℕ
first_instant previous cutoff =
    if before previous (midnight cutoff) then midnight cutoff else previous

unfoldable pub record_daily_traffic : ℕ → ℕ → ℕ → DailyTraffic → DailyTraffic
unfolding add_to portion piece_end spread cutoff_day drop_old first_instant
record_daily_traffic delta previous current daily =
    let start = first_instant previous (cutoff_day current) in
    let spread_out =
      spread (day_of current - day_of start + 1) delta previous current start
        (drop_old (cutoff_day current) daily) in
    if is_zero previous || not (after current previous) then daily else spread_out
