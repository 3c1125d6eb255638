-- ===== src/Ping/BuilderChart.antt =====
-- The chart of internal/store/ping_rollup_query.go: a row after the summary of its hour, or in it.
use vibemonitor.Prelude.{
  ℕ, zero, suc, ◌+◌, ◌<◌, ◌≡◌, refl, ◌∙◌, Bool, true, false, ◌||◌, ◌&&◌, if◌then◌else◌, lt→ltb, ltb,
  ◌==◌, arith, Bool-cases, inl, inr,
}
use vibemonitor.Prelude.Int.{ℤ, pos, negsuc, pos_part, ltb_ℤ}
use vibemonitor.Ping.Window.{PingSample}
use vibemonitor.Ping.Chart.{Bucket, add_sample, add_loss, add_valid}
use vibemonitor.Ping.Rollup.{
  HourlyRollup, new_group, add_row, note_time, note_loss, note_valid, stored,
}
use vibemonitor.Ping.Builder.{Query, merge_bucket}
use vibemonitor.Ping.BuilderLaws.{IsGroup, IsLatency, row_valid, add_row_valid}

Bucket_eq :
    {a b : Bucket}
    → a.index ≡ b.index
    → a.count ≡ b.count
    → a.valid ≡ b.valid
    → a.sum ≡ b.sum
    → a.maximum ≡ b.maximum
    → a.loss ≡ b.loss
    → a.has_loss ≡ b.has_loss
    → a ≡ b
Bucket_eq a b c d e f g = cc

module _ (q : Query) where
  abbrev pub row_sample : ℕ → ℤ → PingSample
  row_sample at l = record { host = q.host; method = q.method; timestamp = at; latency = l }

  lost_next :
      (at : ℕ) (g : HourlyRollup) (b : Bucket)
      → IsGroup g
      → 0 < at
      → add_sample b.index (row_sample at (negsuc 0)) (merge_bucket q (stored g) b)
        ≡ merge_bucket q (stored (add_row (at, negsuc 0) g)) b
  unfolding add_sample add_loss merge_bucket stored add_row note_time note_loss
  lost_next at g b ok positive = ground (arith, ok.counted, positive)

  first_next :
      (at n : ℕ) (g : HourlyRollup) (b : Bucket)
      → IsGroup g
      → g.valid ≡ 0
      → g.max ≡ negsuc 0
      → add_sample b.index (row_sample at (pos n)) (merge_bucket q (stored g) b)
        ≡ merge_bucket q (stored (add_row (at, pos n) g)) b
  unfolding add_sample add_valid merge_bucket stored add_row note_time note_valid
  first_next at n g b ok none_valid hi = ground (arith, ok.counted, none_valid, hi)

  -- The tests of the two ways to the maximum.
  raises : (hi n : ℕ) → (ltb_ℤ (pos hi) (pos 0) || ltb_ℤ (pos hi) (pos n)) ≡ ltb hi n
  raises hi n = ground arith

  not_first : (bv v : ℕ) → 0 < v → (bv + v + 1 == 1) ≡ false
  not_first bv v h = ground (arith, h)

  same_first : (bv v : ℕ) → (bv + (v + 1) == v + 1) ≡ (bv + v == v)
  same_first bv v = ground arith

  above :
      (bv v hi n : ℕ) (z : ℤ)
      → (bv + v == v || ltb_ℤ z (pos hi)) ≡ true
      → ltb hi n ≡ true
      → (bv + v == v || ltb_ℤ z (pos n)) ≡ true
  above bv v hi n z taken up = ground (arith, taken, up)

  below :
      (bv v hi n : ℕ) (z : ℤ)
      → (bv + v == v || ltb_ℤ z (pos hi)) ≡ false
      → ltb hi n ≡ false
      → ltb_ℤ z (pos n) ≡ false
  below bv v hi n z left up = ground (arith, left, up)

  left_first : (bv v : ℕ) (t : Bool) → (bv + v == v || t) ≡ false → (bv + v == v) ≡ false
  left_first bv v t e = ground (arith, e)

  max_before : ℕ → ℕ → ℕ → ℤ → PingSample → PingSample
  max_before bv v peak m old =
      if ltb 0 v && (bv + v == v || ltb_ℤ old.latency m) then row_sample peak m else old

  max_after : ℕ → ℕ → ℕ → ℕ → PingSample → PingSample
  max_after bv v at n m =
      if bv + v + 1 == 1 || ltb_ℤ m.latency (pos n) then row_sample at (pos n) else m

  max_merged : ℕ → ℕ → ℕ → ℕ → ℤ → ℕ → PingSample → PingSample
  max_merged bv v at peak m n old =
      if ltb 0 (v + 1)
        && (bv + (v + 1) == v + 1
            || ltb_ℤ old.latency (if ltb_ℤ m (pos 0) || ltb_ℤ m (pos n) then pos n else m))
      then row_sample (if ltb_ℤ m (pos 0) || ltb_ℤ m (pos n) then at else peak)
          (if ltb_ℤ m (pos 0) || ltb_ℤ m (pos n) then pos n else m)
      else old

  max_next :
      (bv v at peak hi n : ℕ) (old : PingSample)
      → 0 < v
      → max_after bv v at n (max_before bv v peak (pos hi) old)
        ≡ max_merged bv v at peak (pos hi) n old
  unfolding max_after max_before max_merged
  max_next bv v at peak hi n old some_valid =
      rw
        (
          raises hi n,
          lt→ltb 0 v some_valid,
          lt→ltb 0 (v + 1) (omega arith),
          not_first bv v some_valid,
          same_first bv v,
        )
        (elim (Bool-cases (bv + v == v || ltb_ℤ old.latency (pos hi))) [
          | inl taken ↦ elim (Bool-cases (ltb hi n)) [
            | inl up ↦ rw (taken, up, above bv v hi n old.latency taken up) (ground (arith, up))
            | inr same ↦ rw (taken, same, taken) (ground (arith, same))
          ]
          | inr left ↦ elim (Bool-cases (ltb hi n)) [
            | inl up ↦ rw (left, up, left_first bv v (ltb_ℤ old.latency (pos hi)) left) refl
            | inr same ↦ rw (left, same, left) (rw (below bv v hi n old.latency left same) refl)
          ]
        ])

  max_row :
      (bv v at peak n : ℕ) (m : ℤ) (old : PingSample)
      → 0 < v
      → pos (pos_part m) ≡ m
      → max_after bv v at n (max_before bv v peak m old) ≡ max_merged bv v at peak m n old
  max_row bv v at peak n (pos hi) old h e = max_next bv v at peak hi n old h
  max_row bv v at peak n (negsuc k) old h e = absurd cc

  sample_valid : ℕ → ℕ → Bucket → Bucket
  unfolding add_valid
  sample_valid at n b =
      add_valid (row_sample at (pos n)) (record b { index = b.index; count = b.count + 1 })

  add_sample_valid :
      (at n : ℕ) (b : Bucket) → add_sample b.index (row_sample at (pos n)) b ≡ sample_valid at n b
  unfolding add_sample sample_valid
  add_sample_valid at n b = ground arith

  merged_index :
      (at n : ℕ) (g : HourlyRollup) (b : Bucket)
      → add_sample b.index (row_sample at (pos n)) (merge_bucket q (stored g) b)
        ≡ sample_valid at n (merge_bucket q (stored g) b)
  unfolding merge_bucket
  merged_index at n g b = add_sample_valid at n (merge_bucket q (stored g) b)

  more_next :
      (at n : ℕ) (g : HourlyRollup) (b : Bucket)
      → 0 < g.valid
      → pos (pos_part g.max) ≡ g.max
      → sample_valid at n (merge_bucket q (stored g) b)
        ≡ merge_bucket q (stored (row_valid at n g)) b
  unfolding sample_valid merge_bucket stored row_valid max_after max_before max_merged
  more_next at n g b some_valid hi =
      Bucket_eq refl (omega arith) (omega arith) (omega arith)
        (max_row b.valid g.valid at g.peak n g.max b.maximum some_valid hi) refl refl

  pub bucket_next :
      (at : ℕ) (l : ℤ) (g : HourlyRollup) (b : Bucket)
      → IsGroup g
      → IsLatency l
      → 0 < at
      → add_sample b.index (row_sample at l) (merge_bucket q (stored g) b)
        ≡ merge_bucket q (stored (add_row (at, l) g)) b
  bucket_next at (pos n) g b ok lat positive = elim ok.extremes [
    | inl (none_valid, lo, hi) ↦ first_next at n g b ok none_valid hi
    | inr (some_valid, lo, hi) ↦
        rw (add_row_valid at n g) (merged_index at n g b ∙ more_next at n g b some_valid hi)
  ]
  bucket_next at (negsuc zero) g b ok lat positive = lost_next at g b ok positive
  bucket_next at (negsuc (suc k)) g b ok (inl e) positive = absurd cc
  bucket_next at (negsuc (suc k)) g b ok (inr e) positive = absurd cc

  pub bucket_start :
      (at hour : ℕ) (l : ℤ) (b : Bucket)
      → IsLatency l
      → 0 < at
      → add_sample b.index (row_sample at l) b
        ≡ merge_bucket q (stored (add_row (at, l) (new_group hour))) b
  unfolding add_sample add_valid add_loss merge_bucket stored add_row note_time note_valid note_loss
  bucket_start at hour (pos n) b lat positive = ground (arith, positive)
  bucket_start at hour (negsuc zero) b lat positive = ground (arith, positive)
  bucket_start at hour (negsuc (suc k)) b (inl e) positive = absurd cc
  bucket_start at hour (negsuc (suc k)) b (inr e) positive = absurd cc
