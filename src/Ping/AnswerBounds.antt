-- ===== src/Ping/AnswerBounds.antt =====
-- The chart of internal/store/ping_rollup_query.go never grows past its limit.
use native.Mathlib.Nat.{div-lt_iff_lt-mul, le-div_iff_mul-le, div-mul-le_self}
use vibemonitor.Prelude.{
  ℕ, ◌+◌, ◌-◌, ◌/◌, ◌≤◌, ◌<◌, ◌≡◌, refl, Bool, true, false, not, ◌&&◌, List, [], ◌∷◌, ◌++◌, String,
  Option, if◌then◌else◌, leb, ltb, arith, Bool-cases, inl, inr, All, length, length-append,
}
use vibemonitor.Prelude.Int.{ℤ}
use vibemonitor.Ping.Window.{PingSample}
use vibemonitor.Ping.Chart.{Bucket, add_sample, add_loss, add_valid, bucket_sample}
use vibemonitor.Ping.Rollup.{Row}
use vibemonitor.Ping.Builder.{
  Query, Chart, Builder, new_query, new_builder, add_raw, chart_raw, chart_bucket, add_to_bucket,
  count_raw, max_chart_samples,
}
use vibemonitor.Ping.Answer.{
  between, read_raw, read_mixed, chart_samples, finish, query_ping_history,
}
use vibemonitor.Ping.AnswerLaws.{Ascending}

-- The buckets that are done stand before the current one.
pub record Fits (q : Query) (at total : ℕ) (c : Chart) : Type 0 where
  pub raw_total : length c.raw ≤ total
  pub raw_limit : length c.raw ≤ max_chart_samples
  pub none_done : c.bucket.count ≡ 0 → length c.buckets ≡ 0
  pub some_done : 0 < c.bucket.count → length c.buckets ≤ c.bucket.index
  pub index_le : 0 < c.bucket.count → c.bucket.index ≤ (at - q.origin) / q.step

bucket_grows :
    (index : ℕ) (s : PingSample) (b : Bucket)
    → ((add_sample index s b).count ≡ b.count + 1) × ((add_sample index s b).index ≡ index)
unfolding add_sample add_loss add_valid
bucket_grows index s b = ground arith

module _ (round_mean : ℕ → ℕ → ℕ) (q : Query) where
  turn-Fits :
      (at at' total : ℕ) (c : Chart)
      → (at - q.origin) / q.step ≤ (at' - q.origin) / q.step
      → Fits q at total c
      → (length (chart_bucket round_mean q at' c).buckets ≤ (at' - q.origin) / q.step)
        × ((chart_bucket round_mean q at' c).bucket.index ≡ (at' - q.origin) / q.step)
        × ((chart_bucket round_mean q at' c).raw ≡ c.raw)
  unfolding chart_bucket
  turn-Fits at at' total c le fits = ground (
    arith,
    le,
    fits.none_done,
    fits.some_done,
    fits.index_le,
    length-append c.buckets (bucket_sample round_mean c.bucket ∷ []),
  )

  -- The chart before the sample goes into its bucket: the raw list may have taken it.
  kept-Fits :
      (at total : ℕ) (s : PingSample) (c : Chart)
      → Fits q at total c
      → Fits q at (total + 1) (
          if not q.rolled && leb (total + 1) max_chart_samples
          then record c { raw = c.raw ++ (s ∷ []) }
          else c)
  kept-Fits at total s c fits =
      elim (Bool-cases (not q.rolled && leb (total + 1) max_chart_samples)) [
        | inl kept ↦ rw kept (record {
          raw_total = omega (arith, fits.raw_total, length-append c.raw (s ∷ []));
          raw_limit = ground (arith, kept, fits.raw_total, length-append c.raw (s ∷ []));
          none_done = fits.none_done;
          some_done = fits.some_done;
          index_le = fits.index_le;
        })
        | inr full ↦ rw full (record {
          raw_total = omega (arith, fits.raw_total);
          raw_limit = fits.raw_limit;
          none_done = fits.none_done;
          some_done = fits.some_done;
          index_le = fits.index_le;
        })
      ]

  placed-Fits :
      (at at' total : ℕ) (s : PingSample) (c : Chart)
      → (at - q.origin) / q.step ≤ (at' - q.origin) / q.step
      → Fits q at total c
      → Fits q at' total (add_to_bucket s (chart_bucket round_mean q at' c))
  unfolding add_to_bucket
  placed-Fits at at' total s c le fits =
      let (buckets, index, raw) = turn-Fits at at' total c le fits in
      let d : Chart = chart_bucket round_mean q at' c in
      let grown = bucket_grows d.bucket.index s d.bucket in
      record {
        raw_total = rw raw fits.raw_total;
        raw_limit = rw raw fits.raw_limit;
        none_done = λ e. absurd (omega (arith, e, grown.0));
        some_done = λ _. omega (arith, buckets, index, grown.1);
        index_le = λ _. omega (arith, index, grown.1);
      }

  raw-Fits :
      (at at' : ℕ) (l : ℤ) (total : ℕ) (c : Chart)
      → (at - q.origin) / q.step ≤ (at' - q.origin) / q.step
      → Fits q at total c
      → Fits q at' (total + 1) (chart_raw round_mean q (total + 1) (at', l) c)
  unfolding chart_raw
  raw-Fits at at' l total c le fits =
      placed-Fits at at' (total + 1) (sample_of at' l)
        (if not q.rolled && leb (total + 1) max_chart_samples
          then record c { raw = c.raw ++ (sample_of at' l ∷ []) }
          else c)
        le (kept-Fits at total (sample_of at' l) c fits)
    where
      sample_of : ℕ → ℤ → PingSample
      sample_of at l = record { host = q.host; method = q.method; timestamp = at; latency = l }

  total_next : (l : ℤ) (b : Builder) → (count_raw l b.tally).total ≡ b.tally.total + 1
  unfolding count_raw
  total_next l b = ground arith

  new_builder-Fits : Fits q 0 0 new_builder.chart
  new_builder-Fits = record {
    raw_total = omega arith;
    raw_limit = omega arith;
    none_done = λ _. refl;
    some_done = λ h. absurd (omega (arith, h));
    index_le = λ h. absurd (omega (arith, h));
  }

div_mono : (k : ℕ) {a b : ℕ} → 0 < k → a ≤ b → a / k ≤ b / k
div_mono k {a} {b} h le = (le-div_iff_mul-le h).1 (omega (arith, le, div-mul-le_self a k))

-- Each row is within the bounds, and none before the one that precedes it.
abbrev Runs : ℕ → ℕ → List Row → Type 0
Runs at end_time [] = Unit
Runs at end_time (r ∷ rows) = (at ≤ r.0) × (r.0 ≤ end_time) × Runs r.0 end_time rows

Runs-later :
    (at at' end_time : ℕ) (rows : List Row)
    → at ≤ at'
    → Runs at' end_time rows
    → Runs at end_time rows
Runs-later at at' end_time [] le h = tt
Runs-later at at' end_time (r ∷ rows) le (lo, hi, rest) = (omega (arith, le, lo), hi, rest)

between-Runs :
    (lo end_time : ℕ) (rows : List Row)
    → Ascending rows
    → (at : ℕ) → All (λ s. at ≤ s.0) rows
    → Runs at end_time (between lo (end_time + 1) rows)
unfolding between
between-Runs lo end_time [] sorted at h = tt
between-Runs lo end_time (r ∷ rows) sorted at h =
    elim (Bool-cases (leb lo r.0 && ltb r.0 (end_time + 1))) [
      | inl inside ↦
          rw inside
            (h.0, ground (arith, inside), between-Runs lo end_time rows sorted.1 r.0 sorted.0)
      | inr outside ↦ rw outside (
          Runs-later at r.0 end_time (between lo (end_time + 1) rows) h.0
            (between-Runs lo end_time rows sorted.1 r.0 sorted.0))
    ]

All_zero : (rows : List Row) → All (λ s. 0 ≤ s.0) rows
All_zero [] = tt
All_zero (r ∷ rows) = (omega arith, All_zero rows)

module _ (round_mean : ℕ → ℕ → ℕ) (q : Query) (positive : 0 < q.step) where
  abbrev FitsTo : ℕ → Builder → Type 0
  FitsTo end_time b = (at : ℕ) × (at ≤ end_time) × Fits q at b.tally.total b.chart

  read-Fits :
      (rows : List Row) (at end_time : ℕ) (b : Builder)
      → at ≤ end_time
      → Runs at end_time rows
      → Fits q at b.tally.total b.chart
      → FitsTo end_time (read_raw round_mean q rows b)
  unfolding read_raw add_raw
  read-Fits [] at end_time b le run fits = (at, le, fits)
  read-Fits ((at', l) ∷ rows) at end_time b le (lo, hi, rest) fits =
      read-Fits rows at' end_time (add_raw round_mean q (at', l) b) hi rest (
        rw (total_next round_mean q l b) (
          raw-Fits round_mean q at at' l b.tally.total b.chart
            (div_mono q.step positive (omega (arith, lo))) fits))

  samples_le :
      (at total any_total : ℕ) (c : Chart)
      → (at - q.origin) / q.step < max_chart_samples
      → Fits q at total c
      → length (chart_samples round_mean q any_total c) ≤ max_chart_samples
  unfolding chart_samples
  samples_le at total any_total c small fits = ground (
    arith,
    small,
    fits.raw_limit,
    fits.none_done,
    fits.some_done,
    fits.index_le,
    length-append c.buckets (bucket_sample round_mean c.bucket ∷ []),
  )

module _ (host method : String) (start_time end_time : ℕ) (previous : Option ℕ) where
  step_pos : (rolled : Bool) → 0 < (new_query host method start_time end_time previous rolled).step
  unfolding new_query
  step_pos true = omega arith
  step_pos false = omega arith

  index_small :
      (rolled : Bool) (at : ℕ)
      → at ≤ end_time
      → (at - (new_query host method start_time end_time previous rolled).origin)
          / (new_query host method start_time end_time previous rolled).step
        < max_chart_samples
  unfolding new_query
  index_small true at le = (div-lt_iff_lt-mul (step_pos true)).1 (omega (arith, le))
  index_small false at le = (div-lt_iff_lt-mul (step_pos false)).1 (omega (arith, le))

  read_bound :
      (round_mean : ℕ → ℕ → ℕ) (rolled : Bool) (any_total : ℕ) (rows : List Row)
      → Ascending rows
      → length (
          chart_samples round_mean
            (new_query host method start_time end_time previous rolled)
            any_total
            (read_raw round_mean
              (new_query host method start_time end_time previous rolled)
              (between start_time (end_time + 1) rows)
              new_builder).chart)
        ≤ max_chart_samples
  read_bound round_mean rolled any_total rows sorted =
      let q : Query = new_query host method start_time end_time previous rolled in
      let (at, le, fits) =
        read-Fits round_mean q (step_pos rolled) (between start_time (end_time + 1) rows) 0 end_time
          new_builder (omega arith) (between-Runs start_time end_time rows sorted 0 (All_zero rows))
          (new_builder-Fits round_mean q) in
      samples_le round_mean q (step_pos rolled) at _ any_total _ (index_small rolled at le) fits

  -- However long the range and however many rows it has, a response has at most 720 samples, when it
  -- is read from raw rows that ascend: in steps of the range or, with `rolled`, of whole hours.
  pub query_ping_history_bound :
      (round_mean : ℕ → ℕ → ℕ) (rolled : Bool) (last_sample_at : ℕ) (rows : List Row)
      → Ascending rows
      → length
          (query_ping_history round_mean
            (new_query host method start_time end_time previous rolled)
            last_sample_at
            rows
            []).samples
        ≤ max_chart_samples
  unfolding query_ping_history read_mixed finish new_query
  query_ping_history_bound round_mean rolled last_sample_at rows sorted =
      read_bound round_mean rolled _ rows sorted
