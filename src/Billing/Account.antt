-- ===== src/Billing/Account.antt =====
-- The traffic part of `ingestReportAt` of internal/store/store.go, with internal/store/traffic.go.
-- `Node` has the fields that the accounting reads and writes; the node is found by its token
-- before, and the history and the probes come after. The model's counters are numbers once the
-- guard against negative ones has passed.
use text.Mathlib.Text.{◌==◌ as str_eq}
use vibemonitor.Prelude.{
  ℕ, ◌+◌, ◌-◌, ◌*◌, Bool, true, false, not, ◌&&◌, ◌||◌, List, [], ◌∷◌, String, Option, none, some,
  if◌then◌else◌, leb, ltb, any, length, ◌==◌,
}
use vibemonitor.Prelude.Int.{ℤ, pos, pos_part, ltb_ℤ}
use vibemonitor.Prelude.Assoc.{String_discrete, lookup}
use vibemonitor.Prelude.Clock.{minute, is_zero, before, after}
use vibemonitor.Billing.Cycle.{get_billing_cycle_range}
use vibemonitor.Billing.Daily.{DailyTraffic, record_daily_traffic}

pub record Counters : Type 0 where
  pub up : ℤ
  pub down : ℤ

-- Of `NetworkReport`, what the accounting reads.
pub record Network : Type 0 where
  pub total_up : ℤ
  pub total_down : ℤ
  pub interfaces : List (String × Counters)
  pub boot_id : String
  pub source : String

pub record Report : Type 0 where
  pub updated_at : ℕ
  pub uptime : ℤ
  pub network : Network

pub record Node : Type 0 where
  pub last_report : Option Report
  pub last_seen : ℕ
  pub reset_day : ℕ
  pub initial_used : ℕ
  pub current_cycle_used : ℕ
  pub cycle_start : ℕ
  pub traffic_manual_at : Option ℕ
  pub last_total_up : ℕ
  pub last_total_down : ℕ
  pub traffic_baseline_set : Bool
  pub daily_traffic : DailyTraffic

abbrev negative : ℤ → Bool
negative n = ltb_ℤ n (pos 0)

-- The two guards against negative counters.
unfoldable pub has_negative : Network → Bool
has_negative network =
    negative network.total_up
    || negative network.total_down
    || any (λ i. negative i.1.up || negative i.1.down) network.interfaces

unfoldable pub network_counter_delta : ℕ → ℕ → ℕ
network_counter_delta current previous = if leb previous current then current - previous else 0

unfoldable pub traffic_sample_time : Option Report → ℕ → ℕ
traffic_sample_time none received = received
traffic_sample_time (some report) received =
    if is_zero report.updated_at
    then received
    else if ltb (received + 2 * minute) report.updated_at
        || ltb (report.updated_at + 2 * minute) received
    then received
    else report.updated_at

unfoldable pub boot_changed : Report → Report → Bool
boot_changed previous report = not (str_eq previous.network.boot_id report.network.boot_id)

unfoldable pub clock_reset : Report → Report → Bool
clock_reset previous report =
    before report.updated_at previous.updated_at
    && not (is_zero report.updated_at)
    && ltb_ℤ previous.uptime report.uptime

-- A duplicate, or a sample out of order.
unfoldable pub is_stale : Option Report → Report → Bool
unfolding boot_changed clock_reset
is_stale none report = false
is_stale (some previous) report =
    not (boot_changed previous report)
    && not (clock_reset previous report)
    && not (is_zero report.updated_at)
    && not (is_zero previous.updated_at)
    && not (after report.updated_at previous.updated_at)

abbrev detailed : Network → Bool
detailed network = ltb 0 (length network.interfaces)

unfoldable pub selection_changed : Network → Network → Bool
selection_changed previous current =
    not (str_eq previous.source current.source)
    && (not (str_eq previous.source "") || not (str_eq current.source ""))

-- Are the counters of the two reports not comparable?
unfoldable pub baseline_broken : Report → Report → Bool
unfolding boot_changed clock_reset selection_changed
baseline_broken previous report =
    boot_changed previous report
    || clock_reset previous report
    || (selection_changed previous.network report.network
        && not (
            detailed previous.network
            && detailed report.network
            && not (str_eq report.network.boot_id "")))
    || (detailed report.network && not (detailed previous.network))
    || (not (detailed report.network) && detailed previous.network)

unfoldable pub keep_baseline : Option Report → Report → Bool → Bool
unfolding baseline_broken
keep_baseline none report set = false
keep_baseline (some previous) report set = if baseline_broken previous report then false else set

-- `checkCycleRollover`
unfoldable pub check_cycle_rollover : ℕ → Node → Node
check_cycle_rollover now n =
    let start = (get_billing_cycle_range n.reset_day now).0 in
    if n.reset_day == 0
    then n
    else if is_zero n.cycle_start || before n.cycle_start start
    then record n {
      cycle_start = start;
      current_cycle_used = 0;
      initial_used = 0;
      traffic_manual_at = none;
    }
    else n

-- One round of the loop over the interfaces.
unfoldable pub interface_delta : Counters → Option Counters → ℕ
unfolding network_counter_delta
interface_delta current none = 0
interface_delta current (some previous) =
    network_counter_delta (pos_part current.up) (pos_part previous.up)
    + network_counter_delta (pos_part current.down) (pos_part previous.down)

unfoldable pub interfaces_delta : List (String × Counters) → List (String × Counters) → ℕ
unfolding interface_delta
interfaces_delta [] previous = 0
interfaces_delta ((name, current) ∷ rest) previous =
    interface_delta current (lookup String_discrete name previous) + interfaces_delta rest previous

abbrev interfaces_of : Option Report → List (String × Counters)
interfaces_of none = []
interfaces_of (some previous) = previous.network.interfaces

-- The delta of a node whose baseline is set; without one it is 0.
unfoldable pub traffic_delta : Option Report → Report → Node → ℕ
unfolding interfaces_delta network_counter_delta
traffic_delta previous report n =
    if n.traffic_baseline_set
    then (if detailed report.network
        then interfaces_delta report.network.interfaces (interfaces_of previous)
        else network_counter_delta (pos_part report.network.total_up) n.last_total_up
          + network_counter_delta (pos_part report.network.total_down) n.last_total_down)
    else 0

-- The start that the cycle's usage counts from: a manual correction after the cycle's start moves it.
unfoldable pub counted_from : ℕ → Option ℕ → ℕ
counted_from cycle_start none = cycle_start
counted_from cycle_start (some at) = if after at cycle_start then at else cycle_start

unfoldable pub expire_manual : ℕ → Option ℕ → Option ℕ
expire_manual current_at none = none
expire_manual current_at (some at) = if not (before current_at at) then none else some at

-- The report is stored.
unfoldable pub note_report : Report → ℕ → Node → Node
note_report report now n = record n {
  traffic_baseline_set = keep_baseline n.last_report report n.traffic_baseline_set;
  last_report = some report;
  last_seen = now;
}

-- `prorate delta part whole` is `int64(math.Round(float64(delta) * (float64(part) / float64(whole))))`.
module _ (prorate : ℕ → ℕ → ℕ → ℕ) where
  unfoldable pub current_cycle_delta : ℕ → ℕ → ℕ → ℕ → ℕ
  current_cycle_delta delta cycle_start previous_at current_at =
      if delta == 0
      then 0
      else if is_zero previous_at || is_zero current_at || not (after current_at previous_at)
      then delta
      else if not (after current_at cycle_start)
      then 0
      else if not (before previous_at cycle_start)
      then delta
      else prorate delta (current_at - cycle_start) (current_at - previous_at)

  -- The block under `node.ResetDay > 0`, after the rollover.
  unfoldable pub charge : Option Report → Report → ℕ → ℕ → Node → Node
  charge previous report previous_at current_at n =
      let delta = traffic_delta previous report n in
      record n {
        daily_traffic =
            if n.traffic_baseline_set
            then record_daily_traffic delta previous_at current_at n.daily_traffic
            else n.daily_traffic;
        current_cycle_used =
            n.current_cycle_used
            + current_cycle_delta delta (counted_from n.cycle_start n.traffic_manual_at) previous_at
                current_at;
        traffic_manual_at = expire_manual current_at n.traffic_manual_at;
        traffic_baseline_set = true;
        last_total_up = pos_part report.network.total_up;
        last_total_down = pos_part report.network.total_down;
      }

  unfoldable pub account : Option Report → Report → ℕ → ℕ → Node → Node
  account previous report previous_at current_at n =
      if n.reset_day == 0
      then n
      else charge previous report previous_at current_at (check_cycle_rollover current_at n)

  -- `none` is the error on negative counters.
  unfoldable pub ingest_traffic : Report → ℕ → Node → Option Node
  ingest_traffic report now n =
      if has_negative report.network
      then none
      else if is_stale n.last_report report
      then some n
      else some (
          account n.last_report report (traffic_sample_time n.last_report n.last_seen)
            (traffic_sample_time (some report) now) (note_report report now n))
