-- ===== src/Ping/Rollup.antt =====
-- The hourly summaries of ping samples: `pingHourlyRollup` of internal/store/history_rollups.go, as it
-- is written to SQLite and read back by internal/store/ping_rollup_query.go.
use vibemonitor.Prelude.{
  ℕ, ◌+◌, ◌*◌, not, ◌||◌, ◌&&◌, List, [], ◌∷◌, ◌++◌, if◌then◌else◌, ltb, ◌==◌,
}
use vibemonitor.Prelude.Int.{ℤ, pos, negsuc, pos_part, ltb_ℤ}
use vibemonitor.Ping.Samples.{sample_interval}

-- `OfflineInterval`
abbrev pub Interval : Type 0
Interval = ℕ × ℕ

-- A row of `ping_history`: timestamp and latency.
abbrev pub Row : Type 0
Row = ℕ × ℤ

-- A group, within one series: the fields of its key but the hour are those of the series.
pub record HourlyRollup : Type 0 where
  pub hour : ℕ
  pub first : ℕ
  pub last : ℕ
  pub peak : ℕ
  pub timeout : ℕ
  pub count : ℕ
  pub valid : ℕ
  pub min : ℤ
  pub max : ℤ
  pub last_value : ℤ
  pub sum : ℕ
  pub gaps : List Interval

-- The group that a row of another hour begins.
abbrev pub new_group : ℕ → HourlyRollup
new_group hour = record {
  hour = hour;
  first = 0;
  last = 0;
  peak = 0;
  timeout = 0;
  count = 0;
  valid = 0;
  min = negsuc 0;
  max = negsuc 0;
  last_value = pos 0;
  sum = 0;
  gaps = [];
}

abbrev pub gap_threshold : ℕ
gap_threshold = 3 * sample_interval

-- The start of `add`.
unfoldable pub note_time : ℕ → HourlyRollup → HourlyRollup
note_time at g = record g {
  first = if g.count == 0 then at else g.first;
  gaps =
      if not (g.count == 0) && ltb (g.last + gap_threshold) at
      then g.gaps ++ ((g.last + sample_interval, at) ∷ [])
      else g.gaps;
}

unfoldable pub note_loss : ℕ → HourlyRollup → HourlyRollup
note_loss at g = record g { timeout = if g.timeout == 0 then at else g.timeout }

unfoldable pub note_valid : ℕ → ℤ → HourlyRollup → HourlyRollup
note_valid at latency g =
    let raised = ltb_ℤ g.max (pos 0) || ltb_ℤ g.max latency in
    record g {
      valid = g.valid + 1;
      sum = g.sum + pos_part latency;
      min = if ltb_ℤ g.min (pos 0) || ltb_ℤ latency g.min then latency else g.min;
      max = if raised then latency else g.max;
      peak = if raised then at else g.peak;
    }

-- `add`
unfoldable pub add_row : Row → HourlyRollup → HourlyRollup
unfolding note_time note_loss note_valid
add_row (at, latency) g =
    let timed = note_time at g in
    let counted = record timed { count = g.count + 1; last = at; last_value = latency } in
    if ltb_ℤ latency (pos 0) then note_loss at counted else note_valid at latency counted

-- The rows of one series and hour, in the order of their timestamps.
unfoldable pub add_rows : List Row → HourlyRollup → HourlyRollup
add_rows [] g = g
add_rows (row ∷ rows) g = add_rows rows (add_row row g)

-- `pingHourRollup`
pub record HourRollup : Type 0 where
  pub hour : ℕ
  pub first : ℕ
  pub last : ℕ
  pub peak : ℕ
  pub timeout : ℕ
  pub count : ℕ
  pub valid : ℕ
  pub sum : ℕ
  pub minimum : ℤ
  pub maximum : ℤ
  pub current : ℤ
  pub gaps : List Interval

-- The columns that a group is inserted with, and the fields that they are scanned into.
unfoldable pub stored : HourlyRollup → HourRollup
stored g = record {
  hour = g.hour;
  first = g.first;
  last = g.last;
  peak = g.peak;
  timeout = g.timeout;
  count = g.count;
  valid = g.valid;
  sum = g.sum;
  minimum = g.min;
  maximum = g.max;
  current = g.last_value;
  gaps = g.gaps;
}
