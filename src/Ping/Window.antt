-- ===== src/Ping/Window.antt =====
-- `pingLossWindow` of internal/store/ping_history.go: prefix counts of lost probes over the last
-- day. Timestamps are Unix seconds, and stay plain numbers; `ts >= sample.Timestamp - 86400` is
-- written with the 86400 on the other side, so that no subtraction stops at 0.
use vibemonitor.Prelude.{
  ℕ, ◌+◌, ◌-◌, Bool, List, [], ◌∷◌, ◌++◌, if◌then◌else◌, leb, ltb, ◌==◌, length, drop, get_or,
  String, Option, none, some,
}
use vibemonitor.Prelude.Int.{ℤ, pos, ltb_ℤ}
use vibemonitor.Ping.Search.{search}

abbrev pub day_seconds : ℕ
day_seconds = 86400

-- `PingSample`: `latency` is in milliseconds, and -1 for a timeout.
pub record PingSample : Type 0 where
  pub host : String
  pub method : String
  pub timestamp : ℕ
  pub latency : ℤ

pub record LossPoint : Type 0 where
  pub timestamp : ℕ
  pub lost : ℕ

pub record LossWindow : Type 0 where
  pub host : String
  pub method : String
  pub points : List LossPoint
  pub base_lost : ℕ

abbrev no_point : LossPoint
no_point = record { timestamp = 0; lost = 0 }

abbrev pub last_point : List LossPoint → Option LossPoint
last_point [] = none
last_point (p ∷ []) = some p
last_point (p ∷ q ∷ ps) = last_point (q ∷ ps)

abbrev pub is_lost : PingSample → Bool
is_lost s = ltb_ℤ s.latency (pos 0)

abbrev pub point_at : List LossPoint → ℕ → LossPoint
point_at points i = get_or points i no_point

-- `w.points[i-1].lost` for i > 0, and `w.baseLost` for 0.
abbrev pub lost_before : LossWindow → ℕ → ℕ
lost_before w i = if i == 0 then w.base_lost else (point_at w.points (i - 1)).lost

-- The end of `append`: points older than a day before the sample are folded into the base.
unfoldable pub trim_from : LossWindow → ℕ → LossWindow
trim_from w i =
    if ltb 0 i then record w { base_lost = lost_before w i; points = drop i w.points } else w

abbrev pub first_within : List LossPoint → ℕ → ℕ
first_within points newest =
    search (length points) (λ i. leb newest ((point_at points i).timestamp + day_seconds))

unfoldable pub trim : LossWindow → ℕ → LossWindow
unfolding trim_from
trim w newest = trim_from w (first_within w.points newest)

unfoldable pub push : LossWindow → PingSample → ℕ → LossWindow
push w sample lost =
    let lost' = if is_lost sample then lost + 1 else lost in
    trim
      (record w {
        points = w.points ++ (record { timestamp = sample.timestamp; lost = lost' } ∷ []);
      })
      sample.timestamp

-- `append` after its look at the last point.
unfoldable pub append_after : LossWindow → PingSample → Option LossPoint → LossWindow
append_after w sample none = push w sample w.base_lost
append_after w sample (some last) =
    if leb sample.timestamp last.timestamp then w else push w sample last.lost

unfoldable pub append : LossWindow → PingSample → LossWindow
unfolding append_after push trim
append w sample = append_after w sample (last_point w.points)

abbrev pub last_lost : List LossPoint → ℕ
last_lost points = (point_at points (length points - 1)).lost

abbrev pub first_since : List LossPoint → ℕ → ℕ
first_since points cutoff = search (length points) (λ i. leb cutoff (point_at points i).timestamp)

unfoldable pub counts_from : LossWindow → ℕ → ℕ × ℕ
counts_from w i =
    if i == length w.points
    then (0, 0)
    else (last_lost w.points - lost_before w i, length w.points - i)

-- `counts`: the lost samples and all samples at or after the cutoff.
unfoldable pub counts : LossWindow → ℕ → ℕ × ℕ
unfolding counts_from
counts w cutoff = counts_from w (first_since w.points cutoff)
