-- ===== src/Ping/Chart.antt =====
-- The chart buckets and the statistics of internal/store/ping_history.go. Latencies are whole
-- milliseconds, so the float64 sums of the source are exact below 2^53 and are numbers here.
-- `round_mean` is the rounded quotient `math.Round(sum / float64(valid))`.
use vibemonitor.Prelude.{ℕ, ◌+◌, Bool, true, false, not, ◌||◌, if◌then◌else◌, ◌==◌}
use vibemonitor.Prelude.Int.{pos, pos_part, ltb_ℤ}
use vibemonitor.Ping.Window.{PingSample}

abbrev pub no_sample : PingSample
no_sample = record { host = ""; method = ""; timestamp = 0; latency = pos 0 }

-- `pingChartBucket`
pub record Bucket : Type 0 where
  pub index : ℕ
  pub count : ℕ
  pub valid : ℕ
  pub sum : ℕ
  pub maximum : PingSample
  pub loss : PingSample
  pub has_loss : Bool

abbrev pub empty_bucket : Bucket
empty_bucket = record {
  index = 0;
  count = 0;
  valid = 0;
  sum = 0;
  maximum = no_sample;
  loss = no_sample;
  has_loss = false;
}

-- `add` of a lost probe, and of a measured one.
unfoldable pub add_loss : PingSample → Bucket → Bucket
add_loss sample b = record b { loss = if b.has_loss then b.loss else sample; has_loss = true }

unfoldable pub add_valid : PingSample → Bucket → Bucket
add_valid sample b = record b {
  valid = b.valid + 1;
  sum = b.sum + pos_part sample.latency;
  maximum =
      if b.valid + 1 == 1 || ltb_ℤ b.maximum.latency sample.latency then sample else b.maximum;
}

unfoldable pub add_sample : ℕ → PingSample → Bucket → Bucket
unfolding add_loss add_valid
add_sample index sample b =
    let counted = record b { index = index; count = b.count + 1 } in
    if ltb_ℤ sample.latency (pos 0) then add_loss sample counted else add_valid sample counted

-- `sample` of a bucket: its loss, or else its peak, lowered to the mean if it is near that.
unfoldable pub bucket_sample : (ℕ → ℕ → ℕ) → Bucket → PingSample
bucket_sample round_mean b =
    let average = round_mean b.sum b.valid in
    if b.has_loss
    then b.loss
    else if not (ltb_ℤ (pos (average + 15)) b.maximum.latency)
    then record b.maximum { latency = pos average }
    else b.maximum
