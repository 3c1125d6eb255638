-- ===== src/Ping/Prune.antt =====
-- `pruneNodePingLocked` of internal/store/ping_data.go: what a node keeps of its ping data when its
-- targets change. Go visits the map `allowed` in any order; here a name is handled after those that
-- follow it. `now` is `time.Now().Unix()`.
use text.Mathlib.Text.{◌==◌ as str_eq}
use mathlib.Core.Option
use vibemonitor.Prelude.{
  ℕ, ◌-◌, Bool, not, ◌||◌, ◌&&◌, List, [], ◌∷◌, String, Option, none, some, if◌then◌else◌, leb, ltb,
  ◌==◌, length, drop, keep,
}
use vibemonitor.Prelude.Assoc.{String_discrete, lookup, insert}
use vibemonitor.Store.Queue.{Target}
use vibemonitor.Ping.Results.{PingResult, allow_targets, filter_ping_results}
use vibemonitor.Ping.Window.{PingSample, LossWindow}
use vibemonitor.Ping.Samples.{PingObservation, PingState, samples_of, observation_of, fresh_window}

abbrev pub max_samples_per_target : ℕ
max_samples_per_target = 1440

-- The observation that a target keeps.
unfoldable pub pruned_observation : ℕ → String → PingObservation → PingObservation
pruned_observation now host o =
    if not (str_eq o.host host) || o.started_at == 0
    then record { host = host; method = ""; started_at = now; last_sample_at = 0 }
    else o

unfoldable pub pruned_window : PingObservation → Option LossWindow → LossWindow
pruned_window o none = fresh_window o.host o.method
pruned_window o (some w) =
    if not (str_eq w.host o.host) || not (str_eq w.method o.method)
    then fresh_window o.host o.method
    else w

unfoldable pub is_known_method : String → Bool
is_known_method method = str_eq method "tcp" || str_eq method "icmp" || str_eq method "unknown"

-- Does a sample belong to the observation's series?
unfoldable pub belongs : PingObservation → PingSample → Bool
unfolding is_known_method
belongs o sample =
    str_eq sample.host o.host
    && (leb o.started_at sample.timestamp
        && ((str_eq o.method "" || str_eq sample.method o.method) && is_known_method sample.method))

unfoldable pub newest_day : List PingSample → List PingSample
newest_day samples =
    if ltb max_samples_per_target (length samples)
    then drop (length samples - max_samples_per_target) samples
    else samples

unfoldable pub pruned_samples : PingObservation → List PingSample → List PingSample
pruned_samples o samples = newest_day (keep (belongs o) samples)

unfoldable pub put_samples :
    String → List PingSample → List (String × List PingSample) → List (String × List PingSample)
put_samples name samples history =
    if ltb 0 (length samples) then insert String_discrete name samples history else history

-- One round of the loop over `allowed`.
unfoldable pub put_pruned : ℕ → String → String → PingState → PingState → PingState
put_pruned now name host n clean =
    let o = pruned_observation now host (observation_of name n) in
    let samples = pruned_samples o (samples_of name n) in
    record {
      history = put_samples name samples clean.history;
      observed = insert String_discrete name o clean.observed;
      windows =
          insert String_discrete name (pruned_window o (lookup String_discrete name n.windows))
            clean.windows;
    }

unfoldable pub prune_allowed : ℕ → List (String × String) → PingState → PingState
prune_allowed now [] n = record { history = []; observed = []; windows = [] }
prune_allowed now ((name, host) ∷ allowed) n =
    put_pruned now name host n (prune_allowed now allowed n)

-- The node's ping data, and the ping results of its last report.
unfoldable pub prune_node_ping :
    ℕ → List Target → PingState → Option (List PingResult) → PingState × Option (List PingResult)
unfolding prune_allowed put_pruned put_samples pruned_observation pruned_window pruned_samples
    newest_day belongs
prune_node_ping now targets n report = (
  prune_allowed now (allow_targets targets []) n,
  Option.map (λ results. filter_ping_results results targets) report,
)
