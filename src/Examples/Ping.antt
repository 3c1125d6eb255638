-- ===== src/Examples/Ping.antt =====
-- Loss windows on short runs of samples.
use vibemonitor.Prelude.{◌≡◌, refl, [], ◌∷◌, arith, leb, List, length, true, false}
use vibemonitor.Prelude.Int.{pos, negsuc}
use vibemonitor.Ping.Search.{search, IsFirst, search-IsFirst}
use vibemonitor.Ping.Window.{LossWindow, PingSample, counts}
use vibemonitor.Ping.WindowLaws.{Observations, Represents, sums, lost_count, since}
use vibemonitor.Ping.WindowPush.{observe}
use vibemonitor.Ping.Results.{PingResult}
use vibemonitor.Store.Queue.{Target}
use vibemonitor.Ping.WindowRuns.{feed, history, note, counts-feed, newest?}

search-IsFirst_example : IsFirst 10 (leb 7) (search 10 (leb 7))
search-IsFirst_example = search-IsFirst 10 (leb 7) (λ i j le lt h. ground arith)

abbrev window : LossWindow
window = record {
  host = "example.org";
  method = "tcp";
  points =
      record { timestamp = 100; lost = 4 }
      ∷ record { timestamp = 160; lost = 5 }
      ∷ record { timestamp = 220; lost = 5 }
      ∷ [];
  base_lost = 4;
}

abbrev observed : Observations
observed =
    record { at = 100; lost = false }
    ∷ record { at = 160; lost = true }
    ∷ record { at = 220; lost = false }
    ∷ []

window-Represents : Represents window observed
unfolding sums
window-Represents = record {
  points_are = refl;
  sorted = ((omega arith, (omega arith, tt)), ((omega arith, tt), (tt, tt)));
}

abbrev samples : List PingSample
samples =
    record { host = "example.org"; method = "tcp"; timestamp = 100; latency = negsuc 0 }
    ∷ record { host = "example.org"; method = "tcp"; timestamp = 90; latency = negsuc 0 }
    ∷ record { host = "example.org"; method = "tcp"; timestamp = 200; latency = pos 30 }
    ∷ []

counts-feed_example :
    counts
      (feed (record { host = "example.org"; method = "tcp"; points = []; base_lost = 0 }) samples)
      150
    ≡ (lost_count (since 150 (history [] samples)), length (since 150 (history [] samples)))
unfolding history newest? note observe
counts-feed_example = counts-feed "example.org" "tcp" samples 150 (omega arith)

abbrev results : List PingResult
results =
    record { measured_at = pos 9; method = ""; name = "a"; host = "h:1"; latency = pos 3 }
    ∷ record { measured_at = pos 9; method = "tcp"; name = "a"; host = "h:1"; latency = pos 4 }
    ∷ []

abbrev targets : List Target
targets = record { name = "a"; host = "h:1" } ∷ []
