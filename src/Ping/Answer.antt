-- ===== src/Ping/Answer.antt =====
-- `queryPingHistory` of internal/store/ping_history.go with `readRaw` and `finish` of
-- internal/store/ping_rollup_query.go. The rows of `ping_history` of the query's series, ascending by
-- timestamp, and the summaries of the clean hours are given. The rounded quotients that `finish` puts
-- into the response are left out: they are functions of the counts here.
use vibemonitor.Prelude.{
  ℕ, ◌+◌, ◌-◌, not, ◌&&◌, List, [], ◌∷◌, ◌++◌, if◌then◌else◌, leb, ltb, ◌==◌, max, keep, value_or,
}
use vibemonitor.Ping.Samples.{sample_interval}
use vibemonitor.Ping.Window.{PingSample}
use vibemonitor.Ping.Chart.{bucket_sample}
use vibemonitor.Ping.Rollup.{Interval, Row, HourRollup, gap_threshold}
use vibemonitor.Ping.Builder.{
  Query, Tally, Chart, Builder, new_builder, add_raw, add_rollup, max_chart_samples, div_up,
}

-- `timestamp>=? AND timestamp<=?`, with the first instant after the range as the upper end.
unfoldable pub between : ℕ → ℕ → List Row → List Row
between lo hi rows = keep (λ r. leb lo r.0 && ltb r.0 hi) rows

-- The response, as `finish` leaves it.
pub record Answer : Type 0 where
  pub samples : List PingSample
  pub offline : List Interval
  pub tally : Tally

-- The samples that an interval without any lacks.
unfoldable pub missing : Interval → ℕ
missing (start, end) = div_up (end - start) sample_interval

unfoldable pub total_missing : List Interval → ℕ
total_missing [] = 0
total_missing (i ∷ intervals) = missing i + total_missing intervals

-- The last sample that is known of, in the range or before it.
unfoldable pub last_known : Query → ℕ → ℕ → ℕ
last_known q last_sample_at last = if last == 0 then value_or last_sample_at q.previous else last

unfoldable pub trailing_gap : Query → ℕ → List Interval
trailing_gap q last =
    if ltb 0 last && ltb (last + gap_threshold) q.end_time
    then (max q.start_time (last + sample_interval), q.end_time) ∷ []
    else []

module _ (round_mean : ℕ → ℕ → ℕ) where
  -- `readRaw`, of the rows that its statement selects.
  unfoldable pub read_raw : Query → List Row → Builder → Builder
  read_raw q [] b = b
  read_raw q (row ∷ rows) b = read_raw q rows (add_raw round_mean q row b)

  -- The loop over the summaries, from the cursor on, and the last `readRaw`.
  unfoldable pub read_mixed : Query → List Row → List HourRollup → ℕ → Builder → Builder
  unfolding read_raw
  read_mixed q rows [] cursor b = read_raw q (between cursor (q.end_time + 1) rows) b
  read_mixed q rows (v ∷ rollups) cursor b =
      read_mixed q rows rollups (v.hour + 3600)
        (add_rollup round_mean q v (read_raw q (between cursor v.hour rows) b))

  -- The chart's samples: all of them, or one for each bucket.
  unfoldable pub chart_samples : Query → ℕ → Chart → List PingSample
  chart_samples q total c =
      if not q.rolled && leb total max_chart_samples
      then c.raw
      else if ltb 0 c.bucket.count
      then c.buckets ++ (bucket_sample round_mean c.bucket ∷ [])
      else c.buckets

  -- `finish`
  unfoldable pub finish : Query → ℕ → Builder → Answer
  unfolding chart_samples last_known trailing_gap total_missing
  finish q last_sample_at b =
      let offline = b.span.offline ++ trailing_gap q (last_known q last_sample_at b.span.last) in
      record {
        samples = chart_samples q b.tally.total b.chart;
        offline = offline;
        tally = record b.tally {
          total = b.tally.total + total_missing offline;
          lost = b.tally.lost + total_missing offline;
        };
      }

  -- `queryPingHistory` after its lookups.
  unfoldable pub query_ping_history : Query → ℕ → List Row → List HourRollup → Answer
  unfolding read_mixed finish
  query_ping_history q last_sample_at rows rollups =
      finish q last_sample_at (read_mixed q rows rollups q.start_time new_builder)
