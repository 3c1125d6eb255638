-- ===== src/Store/Points.antt =====
-- The points and the resource samples of `ingestReportAt` (internal/store/store.go). `F` is
-- `float64`, with the operations that the source applies to the readings of a report.
use vibemonitor.Prelude.{
  ℕ, ◌+◌, ◌-◌, ◌^◌, Bool, false, not, ◌||◌, ◌&&◌, List, [], ◌∷◌, ◌++◌, String, Option, none, some,
  if◌then◌else◌, leb, length, drop, is_some,
}
use vibemonitor.Prelude.Int.{ℤ, pos, ltb_ℤ, ◌+ℤ◌}
use vibemonitor.Prelude.Clock.{unix}
use vibemonitor.Store.Queue.{HistorySample, enqueue_history}
use vibemonitor.Ping.Samples.{sample_interval}

abbrev pub max_history_points : ℕ
max_history_points = 60

pub record Floats (F : Type 0) : Type 0 where
  pub none_used : F
  pub percent : ℤ → ℤ → F
  pub sum : ℤ → ℤ → F
  pub is_percent : F → Bool
  pub is_nonnegative : F → Bool

-- What the samples read of a report.
pub record Load (F : Type 0) : Type 0 where
  pub cpu : F
  pub ram_used : ℤ
  pub ram_total : ℤ
  pub disk_used : ℤ
  pub disk_total : ℤ
  pub net_up : ℤ
  pub net_down : ℤ
  pub tcp : ℤ
  pub udp : ℤ
  pub load1 : F
  pub tcp_new : Option F

-- `HistoryPoint`
pub record HistoryPoint (F : Type 0) : Type 0 where
  pub timestamp : ℕ
  pub cpu_usage : F
  pub ram_usage : F
  pub net_up : ℤ
  pub net_down : ℤ

-- The nullable columns of a resource sample.
pub record Resources (F : Type 0) : Type 0 where
  pub cpu : Option F
  pub ram : Option F
  pub disk : Option F
  pub network : Option ℤ
  pub connections : Option F
  pub load : Option F
  pub connection_rate : Option F

abbrev pub max_int64 : ℤ
max_int64 = pos (2 ^ 63 - 1)

-- `totalNetworkRate`: the sum, unless it overflows.
unfoldable pub total_network_rate : ℤ → ℤ → Option ℤ
total_network_rate up down =
    if ltb_ℤ up (pos 0) || ltb_ℤ down (pos 0) || ltb_ℤ max_int64 (up +ℤ down)
    then none
    else some (up +ℤ down)

abbrev pub part_of : ℤ → ℤ → Bool
part_of used total = ltb_ℤ (pos 0) total && not (ltb_ℤ used (pos 0)) && not (ltb_ℤ total used)

abbrev pub valid_if : {A : Type 0} → Bool → A → Option A
valid_if valid a = if valid then some a else none

module _ {F : Type 0} (floats : Floats F) where
  -- `ramUsagePct`
  unfoldable pub ram_usage_pct : Load F → F
  ram_usage_pct l =
      if ltb_ℤ (pos 0) l.ram_total then floats.percent l.ram_used l.ram_total else floats.none_used

  unfoldable pub history_point : ℕ → Load F → HistoryPoint F
  unfolding ram_usage_pct
  history_point received_at l = record {
    timestamp = unix received_at;
    cpu_usage = l.cpu;
    ram_usage = ram_usage_pct l;
    net_up = l.net_up;
    net_down = l.net_down;
  }

  -- `nonnegativeResource`
  unfoldable pub nonnegative_resource : F → Option F
  nonnegative_resource x = valid_if (floats.is_nonnegative x) x

  unfoldable pub nonnegative_if : Option F → Option F
  unfolding nonnegative_resource
  nonnegative_if none = none
  nonnegative_if (some x) = nonnegative_resource x

  unfoldable pub resources : Load F → Resources F
  unfolding ram_usage_pct nonnegative_resource nonnegative_if total_network_rate
  resources l = record {
    cpu = valid_if (floats.is_percent l.cpu) l.cpu;
    ram = valid_if (part_of l.ram_used l.ram_total) (ram_usage_pct l);
    disk = valid_if (part_of l.disk_used l.disk_total) (floats.percent l.disk_used l.disk_total);
    network = total_network_rate l.net_up l.net_down;
    connections =
        valid_if (not (ltb_ℤ l.tcp (pos 0)) && not (ltb_ℤ l.udp (pos 0))) (floats.sum l.tcp l.udp);
    load = nonnegative_resource l.load1;
    connection_rate = nonnegative_if l.tcp_new;
  }

module _ {F : Type 0} where
  -- Is any column valid?
  unfoldable pub has_reading : Resources F → Bool
  has_reading r =
      is_some r.cpu
      || is_some r.ram
      || is_some r.disk
      || is_some r.network
      || is_some r.connections
      || is_some r.load
      || is_some r.connection_rate

-- The append to `node.History`, of any length of limit.
module _ {A : Type 0} where
  unfoldable pub append_point : ℕ → A → List A → List A
  append_point limit p points =
      if leb limit (length points) then drop 1 points ++ (p ∷ []) else points ++ (p ∷ [])

  unfoldable pub append_points : ℕ → List A → List A → List A
  append_points limit [] points = points
  append_points limit (p ∷ new) points = append_points limit new (append_point limit p points)

-- The samples of a node's resources that the queue takes, and the time of the last.
module _ {F : Type 0} (floats : Floats F) where
  abbrev pub Resourced : Type 0
  Resourced = ℕ × List (HistorySample (Resources F))

  abbrev pub resource_sample : String → ℕ → Resources F → HistorySample (Resources F)
  resource_sample uuid at r = record {
    uuid = uuid;
    target = "";
    host = "";
    method = "";
    observation_start = pos 0;
    timestamp = pos at;
    readings = r;
    latency = pos 0;
    ping = false;
  }

  unfoldable pub note_taken : ℕ → ℕ → List (HistorySample (Resources F)) × Bool → Resourced
  note_taken at last (pending, taken) = if taken then (at, pending) else (last, pending)

  -- The resource sample of a report, if one is due and has a reading.
  unfoldable pub sample_resources : String → ℕ → Load F → Resourced → Resourced
  unfolding note_taken resources has_reading enqueue_history
  sample_resources uuid received_at l (last, pending) =
      let at = unix received_at in
      let r = resources floats l in
      if leb (last + sample_interval) at && has_reading r
      then note_taken at last (enqueue_history (resource_sample uuid at r) pending)
      else (last, pending)
