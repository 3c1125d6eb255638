-- ===== src/Store/Ingest.antt =====
-- `ingestReportAt` of internal/store/store.go as a whole: the lookup of the token and the guards, then
-- the accounting of Billing.Account, the online time of Uptime.Online, the points and resource samples
-- of Points, and the ping samples of Ping.Samples, on the node and on the queue that they share.
use vibemonitor.Prelude.{ℕ, List, String, Option, none, some, if◌then◌else◌, ltb, length, value_or}
use vibemonitor.Prelude.Assoc.{String_discrete, lookup, insert}
use vibemonitor.Billing.Account.{
  Report, Node, has_negative, is_stale, account, note_report, traffic_sample_time,
}
use vibemonitor.Uptime.Online.{Intervals, offline_threshold, Online, record_daily_online}
use vibemonitor.Store.Queue.{HistorySample, Target, targets_of}
use vibemonitor.Ping.Results.{PingResult, filter_ping_results}
use vibemonitor.Ping.Samples.{PingState, sample_results}
use vibemonitor.Store.Points.{
  Floats, Load, HistoryPoint, Resources, max_history_points, history_point, append_point,
  sample_resources,
}

abbrev pub max_ping_targets : ℕ
max_ping_targets = 64

-- A node, as far as reports change it or read it.
pub record LiveNode (F : Type 0) : Type 0 where
  pub traffic : Node
  pub online : Online
  pub points : List (HistoryPoint F)
  pub last_resource_at : ℕ
  pub pings : PingState
  pub targets : Option (List Target)
  pub basic_interval : Option F

pub record Incoming (F : Type 0) : Type 0 where
  pub traffic : Report
  pub load : Load F
  pub results : List PingResult
  pub interval : F

-- The store, as far as reports change it or read it.
pub record LiveStore (F : Type 0) : Type 0 where
  pub nodes : List (String × LiveNode F)
  pub token_index : List (String × String)
  pub shared_targets : List Target
  pub pending : List (HistorySample (Resources F))

-- What a report comes to; a token of no node would be a nil dereference.
pub data Ingested : Type 0 where
  unauthorized too_many_results negative_counters no_node stale taken : Ingested

module _ {F : Type 0} (floats : Floats F) (intervals : Intervals F) (prorate : ℕ → ℕ → ℕ → ℕ) where
  abbrev pub empty_readings : Resources F
  empty_readings = record {
    cpu = none;
    ram = none;
    disk = none;
    network = none;
    connections = none;
    load = none;
    connection_rate = none;
  }

  -- The node's own state after a report that counts, but for its ping samples.
  unfoldable pub updated_node : Incoming F → ℕ → LiveNode F → LiveNode F
  updated_node r now n = record n {
    traffic =
        account prorate n.traffic.last_report r.traffic
          (traffic_sample_time n.traffic.last_report n.traffic.last_seen)
          (traffic_sample_time (some r.traffic) now) (note_report r.traffic now n.traffic);
    online = value_or n.online (
        record_daily_online (offline_threshold intervals n.basic_interval (some r.interval)) now
          n.online);
    points = append_point max_history_points (history_point floats now r.load) n.points;
  }

  unfoldable pub store_node :
      String
      → LiveNode F
      → PingState × List (HistorySample (Resources F))
      → LiveStore F
      → LiveStore F
  store_node uuid n (pings, pending) s = record s {
    nodes = insert String_discrete uuid (record n { pings = pings }) s.nodes;
    pending = pending;
  }

  -- The samples: first that of the resources, then those of the probes.
  unfoldable pub take_samples :
      String → ℕ → Incoming F → List PingResult → LiveNode F → LiveStore F → LiveStore F
  unfolding store_node
  take_samples uuid now r results n s =
      let (last, pending) =
        sample_resources floats uuid now r.load (n.last_resource_at, s.pending) in
      store_node uuid (record n { last_resource_at = last })
        (sample_results empty_readings uuid now results (n.pings, pending)) s

  unfoldable pub ingest_into :
      String → Incoming F → ℕ → LiveStore F → Option (LiveNode F) → LiveStore F × Ingested
  unfolding updated_node take_samples
  ingest_into uuid r now s none = (s, no_node)
  ingest_into uuid r now s (some n) =
      if has_negative r.traffic.network
      then (s, negative_counters)
      else if is_stale n.traffic.last_report r.traffic
      then (s, stale)
      else (
        take_samples uuid now r
            (filter_ping_results r.results (targets_of s.shared_targets n.targets))
            (updated_node r now n) s,
        taken,
      )

  unfoldable pub ingest_indexed :
      Incoming F → ℕ → LiveStore F → Option String → LiveStore F × Ingested
  unfolding ingest_into
  ingest_indexed r now s none = (s, unauthorized)
  ingest_indexed r now s (some uuid) =
      if ltb max_ping_targets (length r.results)
      then (s, too_many_results)
      else ingest_into uuid r now s (lookup String_discrete uuid s.nodes)

  unfoldable pub ingest_report_at : String → Incoming F → ℕ → LiveStore F → LiveStore F × Ingested
  unfolding ingest_indexed
  ingest_report_at token r now s =
      ingest_indexed r now s (lookup String_discrete token s.token_index)
