-- ===== src/Ping/BuilderRuns.antt =====
-- A history query answered from hourly summaries is the one answered from the raw samples
-- (internal/store/ping_rollup_query.go and history_rollups.go).
use native.Mathlib.Nat.{div-div-eq-div-mul}
use vibemonitor.Prelude.{ℕ, ◌+◌, ◌-◌, ◌*◌, ◌/◌, ◌≤◌, ◌<◌, ◌≡◌, refl, sym, ap, ◌∙◌, true, arith}
use vibemonitor.Prelude.Int.{ℤ}
use vibemonitor.Ping.Chart.{Bucket}
use vibemonitor.Ping.Rollup.{Row, HourRollup, HourlyRollup, new_group, add_row, stored}
use vibemonitor.Ping.Builder.{
  Query, Chart, Builder, count_rollup, chart_bucket, add_to_bucket, chart_raw, merge_bucket,
  chart_rollup, add_raw, add_rollup,
}
use vibemonitor.Ping.BuilderLaws.{
  IsGroup, IsLatency, span_next, span_start, tally_next, tally_start, add_row_hour,
}
use vibemonitor.Ping.BuilderChart.{bucket_next, bucket_start, row_sample}

-- The hour of a row, as the summaries key it.
abbrev pub hour_of : ℕ → ℕ
hour_of at = at / 3600 * 3600

-- The buckets of the query are whole hours.
pub record IsHourly (q : Query) : Type 0 where
  pub hours : ℕ
  pub from : ℕ
  pub rolled : q.rolled ≡ true
  pub step_eq : q.step ≡ 3600 * hours
  pub origin_eq : q.origin ≡ from * 3600

-- A row of the query's range.
abbrev pub IsRow : Query → Row → Type 0
IsRow q row = (0 < row.0) × IsLatency row.1 × (q.origin ≤ row.0)

abbrev index_of : Query → ℕ → ℕ
index_of q at = (at - q.origin) / q.step

hours_from :
    (at from : ℕ) → from * 3600 ≤ at → (at - from * 3600) / 3600 ≡ (hour_of at - from * 3600) / 3600
hours_from at from h = omega (arith, h)

-- A row stands in the bucket of its hour.
same_index :
    (q : Query) (at : ℕ) → IsHourly q → q.origin ≤ at → index_of q at ≡ index_of q (hour_of at)
same_index q at ok h =
    rw (ok.step_eq, ok.origin_eq)
      (sym (div-div-eq-div-mul (at - ok.from * 3600) 3600 ok.hours)
        ∙ ap (λ n. n / ok.hours) (hours_from at ok.from (omega (arith, h, ok.origin_eq)))
        ∙ div-div-eq-div-mul (hour_of at - ok.from * 3600) 3600 ok.hours)

Builder_eq : {a b : Builder} → a.span ≡ b.span → a.tally ≡ b.tally → a.chart ≡ b.chart → a ≡ b
Builder_eq s t c = cc

module _ (round_mean : ℕ → ℕ → ℕ) (q : Query) where
  bucket_index :
      (at : ℕ) (c : Chart) → (chart_bucket round_mean q at c).bucket.index ≡ index_of q at
  unfolding chart_bucket
  bucket_index at c = ground arith

  bucket_stays :
      (at : ℕ) (c : Chart) → c.bucket.index ≡ index_of q at → chart_bucket round_mean q at c ≡ c
  unfolding chart_bucket
  bucket_stays at c e = ground (arith, e)

  bucket_same :
      (at at' : ℕ) (c : Chart)
      → index_of q at ≡ index_of q at'
      → chart_bucket round_mean q at c ≡ chart_bucket round_mean q at' c
  unfolding chart_bucket
  bucket_same at at' c e = rw e refl

  chart_rolled :
      (total at : ℕ) (l : ℤ) (c : Chart)
      → q.rolled ≡ true
      → chart_raw round_mean q total (at, l) c
        ≡ add_to_bucket (row_sample q at l) (chart_bucket round_mean q at c)
  unfolding chart_raw
  chart_rolled total at l c rolled = rw rolled refl

  merged : HourRollup → Chart → Chart
  merged v c = record c { bucket = merge_bucket q v c.bucket }

  rollup_merged :
      (hour : ℕ) (g : HourlyRollup) (c : Chart)
      → g.hour ≡ hour
      → chart_rollup round_mean q (stored g) c
        ≡ merged (stored g) (chart_bucket round_mean q hour c)
  unfolding chart_rollup merged stored
  rollup_merged hour g c e = rw e refl

  start_in :
      (at hour : ℕ) (l : ℤ) (c : Chart)
      → IsRow q (at, l)
      → add_to_bucket (row_sample q at l) c ≡ merged (stored (add_row (at, l) (new_group hour))) c
  unfolding add_to_bucket merged
  start_in at hour l c row =
      ap (λ (b : Bucket). record c { bucket = b }) (bucket_start q at hour l c.bucket row.1 row.0)

  next_in :
      (at : ℕ) (l : ℤ) (g : HourlyRollup) (c : Chart)
      → IsRow q (at, l)
      → IsGroup g
      → add_to_bucket (row_sample q at l) (merged (stored g) c)
        ≡ merged (stored (add_row (at, l) g)) c
  unfolding add_to_bucket merged merge_bucket
  next_in at l g c row group =
      ap (λ (b : Bucket). record c { bucket = b }) (bucket_next q at l g c.bucket group row.1 row.0)

  chart_start :
      (total at : ℕ) (l : ℤ) (c : Chart)
      → IsHourly q
      → IsRow q (at, l)
      → chart_raw round_mean q total (at, l) c
        ≡ chart_rollup round_mean q (stored (add_row (at, l) (new_group (hour_of at)))) c
  chart_start total at l c ok row =
      chart_rolled total at l c ok.rolled
      ∙ ap (add_to_bucket (row_sample q at l))
          (bucket_same at (hour_of at) c (same_index q at ok row.2))
      ∙ start_in at (hour_of at) l (chart_bucket round_mean q (hour_of at) c) row
      ∙ sym (
          rollup_merged (hour_of at) (add_row (at, l) (new_group (hour_of at))) c
            (add_row_hour at l (new_group (hour_of at))))

  merged_index : (v : HourRollup) (c : Chart) → (merged v c).bucket.index ≡ c.bucket.index
  unfolding merged merge_bucket
  merged_index v c = refl

  chart_next :
      (total at : ℕ) (l : ℤ) (g : HourlyRollup) (c : Chart)
      → IsHourly q
      → IsRow q (at, l)
      → IsGroup g
      → g.hour ≡ hour_of at
      → chart_raw round_mean q total (at, l) (chart_rollup round_mean q (stored g) c)
        ≡ chart_rollup round_mean q (stored (add_row (at, l) g)) c
  chart_next total at l g c ok row group hour =
      let c' : Chart = chart_bucket round_mean q (hour_of at) c in
      let same : (merged (stored g) c').bucket.index ≡ index_of q at =
        merged_index (stored g) c' ∙ bucket_index (hour_of at) c ∙ sym (same_index q at ok row.2) in
      chart_rolled total at l (chart_rollup round_mean q (stored g) c) ok.rolled
      ∙ ap (λ d. add_to_bucket (row_sample q at l) (chart_bucket round_mean q at d))
          (rollup_merged (hour_of at) g c hour)
      ∙ ap (add_to_bucket (row_sample q at l)) (bucket_stays at (merged (stored g) c') same)
      ∙ next_in at l g c' row group
      ∙ sym (rollup_merged (hour_of at) (add_row (at, l) g) c (add_row_hour at l g ∙ hour))

  pub row_start :
      (at : ℕ) (l : ℤ) (b : Builder)
      → IsHourly q
      → IsRow q (at, l)
      → add_raw round_mean q (at, l) b
        ≡ add_rollup round_mean q (stored (add_row (at, l) (new_group (hour_of at)))) b
  unfolding add_raw add_rollup
  row_start at l b ok row =
      Builder_eq (span_start q at (hour_of at) l b.span)
        (tally_start at (hour_of at) l b.tally row.1)
        (chart_start (b.tally.total + 1) at l b.chart ok row)

  pub row_next :
      (at : ℕ) (l : ℤ) (g : HourlyRollup) (b : Builder)
      → IsHourly q
      → IsRow q (at, l)
      → IsGroup g
      → g.hour ≡ hour_of at
      → add_raw round_mean q (at, l) (add_rollup round_mean q (stored g) b)
        ≡ add_rollup round_mean q (stored (add_row (at, l) g)) b
  unfolding add_raw add_rollup
  row_next at l g b ok row group hour =
      Builder_eq (span_next q at l g b.span group) (tally_next at l g b.tally group row.1)
        (chart_next ((count_rollup (stored g) b.tally).total + 1) at l g b.chart ok row group hour)
