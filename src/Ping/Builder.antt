-- ===== src/Ping/Builder.antt =====
-- `pingHistoryBuilder` of internal/store/ping_rollup_query.go, which answers a history query from raw
-- samples and hourly summaries. Its fields stand in four records: what it was made with, the time it
-- has seen, the statistics, and the chart.
use vibemonitor.Prelude.{
  ℕ, ◌+◌, ◌-◌, ◌*◌, ◌/◌, Bool, true, not, ◌||◌, ◌&&◌, List, [], ◌∷◌, ◌++◌, String, Option, none,
  some, if◌then◌else◌, leb, ltb, ◌==◌, max,
}
use vibemonitor.Prelude.Int.{ℤ, pos, negsuc, pos_part, ltb_ℤ}
use vibemonitor.Ping.Samples.{sample_interval}
use vibemonitor.Ping.Window.{PingSample}
use vibemonitor.Ping.Chart.{Bucket, empty_bucket, add_sample, bucket_sample}
use vibemonitor.Ping.Rollup.{Interval, Row, HourRollup, gap_threshold}

abbrev pub max_chart_samples : ℕ
max_chart_samples = 720

-- Of the response: its series and range; and `previous`, `step`, `origin` and `rolled`.
pub record Query : Type 0 where
  pub host : String
  pub method : String
  pub start_time : ℕ
  pub end_time : ℕ
  pub previous : Option ℕ
  pub step : ℕ
  pub origin : ℕ
  pub rolled : Bool

pub record Span : Type 0 where
  pub first : ℕ
  pub last : ℕ
  pub offline : List Interval

pub record Tally : Type 0 where
  pub current : ℤ
  pub min : ℤ
  pub max : ℤ
  pub total : ℕ
  pub valid : ℕ
  pub lost : ℕ
  pub sum : ℕ

pub record Chart : Type 0 where
  pub raw : List PingSample
  pub buckets : List PingSample
  pub bucket : Bucket

pub record Builder : Type 0 where
  pub span : Span
  pub tally : Tally
  pub chart : Chart

-- The quotient rounded up.
abbrev pub div_up : ℕ → ℕ → ℕ
div_up n d = (n + d - 1) / d

-- `newPingHistoryBuilder`: the query for a range from `start` to `end`.
unfoldable pub new_query : String → String → ℕ → ℕ → Option ℕ → Bool → Query
new_query host method start_time end_time previous rolled = record {
  host = host;
  method = method;
  start_time = start_time;
  end_time = end_time;
  previous = previous;
  step =
      if rolled
      then max 3600
          (div_up (div_up (end_time - start_time / 3600 * 3600 + 1) max_chart_samples) 3600 * 3600)
      else max 1 (div_up (end_time - start_time + 1) max_chart_samples);
  origin = if rolled then start_time / 3600 * 3600 else start_time;
  rolled = rolled;
}

abbrev pub new_builder : Builder
new_builder = record {
  span = record { first = 0; last = 0; offline = [] };
  tally = record {
    current = negsuc 0;
    min = negsuc 0;
    max = negsuc 0;
    total = 0;
    valid = 0;
    lost = 0;
    sum = 0;
  };
  chart = record { raw = []; buckets = []; bucket = empty_bucket };
}

-- The gap before the first sample of the range, by the sample before the range.
unfoldable pub gap_before : Query → ℕ → Option ℕ → List Interval
gap_before q first none =
    if ltb (q.start_time + gap_threshold) first then (q.start_time, first) ∷ [] else []
gap_before q first (some previous) =
    let leading_start = max q.start_time (previous + sample_interval) in
    if ltb (previous + gap_threshold) first && ltb leading_start first
    then (leading_start, first) ∷ []
    else []

unfoldable pub leading_gap : Query → ℕ → List Interval
unfolding gap_before
leading_gap q first = gap_before q first q.previous

unfoldable pub observe : Query → ℕ → ℕ → Span → Span
unfolding leading_gap
observe q first last s = record {
  first = if s.first == 0 then first else s.first;
  last = last;
  offline =
      if s.first == 0
      then s.offline ++ leading_gap q first
      else if ltb (s.last + gap_threshold) first
      then s.offline ++ ((s.last + sample_interval, first) ∷ [])
      else s.offline;
}

unfoldable pub lower : ℤ → ℤ → ℤ
lower min latency = if ltb_ℤ min (pos 0) || ltb_ℤ latency min then latency else min

unfoldable pub higher : ℤ → ℤ → ℤ
higher max latency = if ltb_ℤ max latency then latency else max

-- The statistics of `addRaw`.
unfoldable pub count_raw : ℤ → Tally → Tally
unfolding lower higher
count_raw latency t =
    let counted = record t { current = latency; total = t.total + 1 } in
    if ltb_ℤ latency (pos 0) then record counted { lost = t.lost + 1 } else record counted {
      valid = t.valid + 1;
      sum = t.sum + pos_part latency;
      min = lower t.min latency;
      max = higher t.max latency;
    }

-- The statistics of `addRollup`.
unfoldable pub count_rollup : HourRollup → Tally → Tally
unfolding lower higher
count_rollup v t = record {
  current = v.current;
  total = t.total + v.count;
  valid = t.valid + v.valid;
  lost = t.lost + (v.count - v.valid);
  sum = t.sum + v.sum;
  min = if ltb 0 v.valid then lower t.min v.minimum else t.min;
  max = if ltb 0 v.valid then higher t.max v.maximum else t.max;
}

-- The time of `addRollup`: the gaps within the hour follow the one before it.
unfoldable pub observe_rollup : Query → HourRollup → Span → Span
unfolding observe
observe_rollup q v s =
    let seen = observe q v.first v.last s in record seen { offline = seen.offline ++ v.gaps }

unfoldable pub add_to_bucket : PingSample → Chart → Chart
add_to_bucket sample c = record c { bucket = add_sample c.bucket.index sample c.bucket }

-- What `addRollup` does to the bucket of its hour.
unfoldable pub merge_bucket : Query → HourRollup → Bucket → Bucket
merge_bucket q v b =
    let valid = b.valid + v.valid in
    record b {
      count = b.count + v.count;
      valid = valid;
      sum = b.sum + v.sum;
      maximum =
          if ltb 0 v.valid && (valid == v.valid || ltb_ℤ b.maximum.latency v.maximum)
          then record { host = q.host; method = q.method; timestamp = v.peak; latency = v.maximum }
          else b.maximum;
      loss =
          if ltb 0 v.timeout && not b.has_loss
          then record {
            host = q.host;
            method = q.method;
            timestamp = v.timeout;
            latency = negsuc 0;
          }
          else b.loss;
      has_loss = if ltb 0 v.timeout && not b.has_loss then true else b.has_loss;
    }

module _ (round_mean : ℕ → ℕ → ℕ) where
  -- `chartBucket`
  unfoldable pub chart_bucket : Query → ℕ → Chart → Chart
  chart_bucket q at c =
      let index = (at - q.origin) / q.step in
      if ltb 0 c.bucket.count && not (c.bucket.index == index)
      then record c {
        buckets = c.buckets ++ (bucket_sample round_mean c.bucket ∷ []);
        bucket = record empty_bucket { index = index };
      }
      else record c { bucket = record c.bucket { index = index } }

  -- The chart of `addRaw`; `total` is the count of samples with this one.
  unfoldable pub chart_raw : Query → ℕ → Row → Chart → Chart
  unfolding chart_bucket add_to_bucket
  chart_raw q total (at, latency) c =
      let sample : PingSample = record {
        host = q.host;
        method = q.method;
        timestamp = at;
        latency = latency;
      } in
      let kept =
        if not q.rolled && leb total max_chart_samples
        then record c { raw = c.raw ++ (sample ∷ []) }
        else c in
      add_to_bucket sample (chart_bucket q at kept)

  unfoldable pub chart_rollup : Query → HourRollup → Chart → Chart
  unfolding chart_bucket merge_bucket
  chart_rollup q v c =
      let at_hour = chart_bucket q v.hour c in
      record at_hour { bucket = merge_bucket q v at_hour.bucket }

  unfoldable pub add_raw : Query → Row → Builder → Builder
  unfolding observe count_raw chart_raw
  add_raw q (at, latency) b = record {
    span = observe q at at b.span;
    tally = count_raw latency b.tally;
    chart = chart_raw q (b.tally.total + 1) (at, latency) b.chart;
  }

  -- `addRollup`
  unfoldable pub add_rollup : Query → HourRollup → Builder → Builder
  unfolding observe_rollup count_rollup chart_rollup
  add_rollup q v b = record {
    span = observe_rollup q v b.span;
    tally = count_rollup v b.tally;
    chart = chart_rollup q v b.chart;
  }
