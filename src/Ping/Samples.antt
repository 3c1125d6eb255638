-- ===== src/Ping/Samples.antt =====
-- Ping samples in memory: the end of `ingestReportAt` (internal/store/store.go) and
-- `recordPingObservationLocked` (internal/store/ping_history.go). Times are Unix seconds; a host or a
-- method that a Go map lacks is empty, and a time 0. `R` stands for the readings of the resource
-- samples that share the queue, and `no_readings` for those of a ping sample.
use text.Mathlib.Text.{◌==◌ as str_eq}
use vibemonitor.Prelude.{
  ℕ, ◌+◌, ◌-◌, Bool, true, not, ◌||◌, ◌&&◌, List, [], ◌∷◌, ◌++◌, String, Option, none, some,
  if◌then◌else◌, leb, ltb, ◌==◌, length, drop, value_or,
}
use vibemonitor.Prelude.Int.{pos, pos_part, neg_part}
use vibemonitor.Prelude.Assoc.{String_discrete, lookup, insert, delete}
use vibemonitor.Prelude.Clock.{unix}
use vibemonitor.Store.Queue.{HistorySample, enqueue_history}
use vibemonitor.Ping.Results.{PingResult}
use vibemonitor.Alerts.Targets.{fresh_at}
use vibemonitor.Ping.Window.{PingSample, LossWindow, append}

abbrev pub sample_interval : ℕ
sample_interval = 60

abbrev pub preview_samples : ℕ
preview_samples = 24

pub record PingObservation : Type 0 where
  pub host : String
  pub method : String
  pub started_at : ℕ
  pub last_sample_at : ℕ

abbrev pub no_observation : PingObservation
no_observation = record { host = ""; method = ""; started_at = 0; last_sample_at = 0 }

-- `PingHistory`, `PingObserved` and `pingWindows` of a node.
pub record PingState : Type 0 where
  pub history : List (String × List PingSample)
  pub observed : List (String × PingObservation)
  pub windows : List (String × LossWindow)

abbrev pub samples_of : String → PingState → List PingSample
samples_of name n = value_or [] (lookup String_discrete name n.history)

abbrev pub observation_of : String → PingState → PingObservation
observation_of name n = value_or no_observation (lookup String_discrete name n.observed)

abbrev pub fresh_window : String → String → LossWindow
fresh_window host method = record { host = host; method = method; points = []; base_lost = 0 }

-- Has the target another host or method than the series on record?
unfoldable pub is_other_series : String → String → PingObservation → Bool
is_other_series host method o =
    not (str_eq o.host host)
    || o.started_at == 0
    || (not (str_eq o.method "") && not (str_eq o.method method))

-- The first measurement of a probe whose method was not known.
unfoldable pub adopt_method : String → ℕ → PingObservation → PingObservation
adopt_method method at o =
    if str_eq o.method "" then record o { method = method; started_at = at } else o

-- The end of the function: the window of the series, with its method.
unfoldable pub set_window : String → String → String → ℕ → PingState → PingState
set_window name host method at n = record n {
  windows =
      insert String_discrete name
        (record (value_or (fresh_window host method) (lookup String_discrete name n.windows)) {
          method = method;
        })
        n.windows;
}

unfoldable pub restart_series : String → String → String → ℕ → PingState → PingState
restart_series name host method at n = record {
  history = delete String_discrete name n.history;
  observed =
      insert String_discrete name
        (record { host = host; method = method; started_at = at; last_sample_at = 0 }) n.observed;
  windows = delete String_discrete name n.windows;
}

unfoldable pub continue_series : String → String → ℕ → PingState → PingState
continue_series name method at n = record n {
  observed =
      insert String_discrete name (adopt_method method at (observation_of name n)) n.observed;
}

-- `recordPingObservationLocked`
unfoldable pub record_ping_observation : String → String → String → ℕ → PingState → PingState
unfolding is_other_series restart_series continue_series set_window adopt_method
record_ping_observation name host method at n = set_window name host method at (
    if is_other_series host method (observation_of name n)
    then restart_series name host method at n
    else continue_series name method at n)

abbrev pub last_time : List PingSample → Option ℕ
last_time [] = none
last_time (s ∷ []) = some s.timestamp
last_time (s ∷ t ∷ samples) = last_time (t ∷ samples)

-- Is it time for another sample?
unfoldable pub is_due : ℕ → Option ℕ → Bool
is_due at none = true
is_due at (some last) = leb (last + sample_interval) at

-- The newest samples, which the overview shows.
unfoldable pub newest : List PingSample → List PingSample
newest samples =
    if ltb preview_samples (length samples)
    then drop (length samples - preview_samples) samples
    else samples

abbrev pub sample_at : PingResult → ℕ → PingSample
sample_at p at = record { host = p.host; method = p.method; timestamp = at; latency = p.latency }

-- `node.pingWindows[p.Name].append(smp)`
unfoldable pub append_window : String → PingSample → PingState → PingState
append_window name sample n = record n {
  windows =
      insert String_discrete name
        (append
          (value_or (fresh_window sample.host sample.method)
            (lookup String_discrete name n.windows))
          sample)
        n.windows;
}

-- A sample that the queue has taken.
unfoldable pub keep_sample : String → PingSample → PingState → PingState
unfolding append_window newest
keep_sample name sample n = append_window name sample (record n {
  history = insert String_discrete name (newest (samples_of name n ++ (sample ∷ []))) n.history;
  observed =
      insert String_discrete name
        (record (observation_of name n) { last_sample_at = sample.timestamp }) n.observed;
})

-- `nowUnix`, or none where the loop goes on to the next result.
unfoldable pub sample_time : PingResult → ℕ → Option ℕ
sample_time p received_at =
    if pos_part p.measured_at == 0 && neg_part p.measured_at == 0
    then some (unix received_at)
    else if not (fresh_at received_at p)
    then none
    else some (pos_part p.measured_at)

module _ {R : Type 0} (no_readings : R) where
  abbrev pub queued : String → PingResult → ℕ → ℕ → HistorySample R
  queued uuid p at started = record {
    uuid = uuid;
    target = p.name;
    host = p.host;
    method = p.method;
    observation_start = pos started;
    timestamp = pos at;
    readings = no_readings;
    latency = p.latency;
    ping = true;
  }

  -- The node's samples and the queue.
  abbrev pub Sampled : Type 0
  Sampled = PingState × List (HistorySample R)

  -- After the call of `enqueueHistoryLocked`.
  unfoldable pub keep_queued : PingResult → ℕ → PingState → List (HistorySample R) × Bool → Sampled
  unfolding keep_sample
  keep_queued p at n (pending, taken) =
      if not taken then (n, pending) else (keep_sample p.name (sample_at p at) n, pending)

  -- After the observation of the result is on record.
  unfoldable pub sample_due : String → PingResult → ℕ → Sampled → Sampled
  unfolding keep_queued is_due enqueue_history
  sample_due uuid p at (n, pending) =
      if is_due at (last_time (samples_of p.name n))
      then keep_queued p at n
          (enqueue_history (queued uuid p at (observation_of p.name n).started_at) pending)
      else (n, pending)

  unfoldable pub sample_result_at : String → PingResult → Option ℕ → Sampled → Sampled
  unfolding record_ping_observation sample_due
  sample_result_at uuid p none s = s
  sample_result_at uuid p (some at) (n, pending) =
      if ltb at (observation_of p.name n).last_sample_at
      then (n, pending)
      else sample_due uuid p at (record_ping_observation p.name p.host p.method at n, pending)

  -- One round of the loop over `report.PingResults`.
  unfoldable pub sample_result : String → ℕ → PingResult → Sampled → Sampled
  unfolding sample_time sample_result_at
  sample_result uuid received_at p s = sample_result_at uuid p (sample_time p received_at) s

  unfoldable pub sample_results : String → ℕ → List PingResult → Sampled → Sampled
  sample_results uuid received_at [] s = s
  sample_results uuid received_at (p ∷ results) s =
      sample_results uuid received_at results (sample_result uuid received_at p s)
