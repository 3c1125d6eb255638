-- ===== src/Store/Queue.antt =====
-- The queue of history samples of internal/store/persistence.go. `flushHistoryContext` holds
-- `persistMu` from end to end but `mu` only while it captures and while it acknowledges; reports
-- enter the queue in between. So a flush is four moves of a state machine, and the transaction's
-- outcome is which move follows. `R` stands for the nullable readings of a resource sample.
use text.Mathlib.Text.{◌==◌ as str_eq}
use vibemonitor.Prelude.{
  ℕ, Bool, true, false, ◌&&◌, List, [], ◌∷◌, ◌++◌, String, Option, none, some, if◌then◌else◌, leb,
  any, length, keep, drop, ◌==◌,
}
use vibemonitor.Prelude.Int.{ℤ}
use vibemonitor.Prelude.Assoc.{String_discrete, lookup}

abbrev pub max_pending_history_samples : ℕ
max_pending_history_samples = 65536

pub record HistorySample (R : Type 0) : Type 0 where
  pub uuid : String
  pub target : String
  pub host : String
  pub method : String
  pub observation_start : ℤ
  pub timestamp : ℤ
  pub readings : R
  pub latency : ℤ
  pub ping : Bool

pub record Target : Type 0 where
  pub name : String
  pub host : String

-- The targets of a node's profile, if it has one.
abbrev pub NodeTargets : Type 0
NodeTargets = List (String × Option (List Target))

abbrev pub targets_of : List Target → Option (List Target) → List Target
targets_of shared none = shared
targets_of shared (some own) = own

-- Where a flush stands.
pub data Phase (R : Type 0) : Type 0 where
  idle : Phase R
  captured : (count : ℕ) (batch : List (HistorySample R)) → Phase R
  committed : (count : ℕ) → Phase R

-- `written` is what the transactions committed, in order.
pub record Queue (R : Type 0) : Type 0 where
  pub pending : List (HistorySample R)
  pub written : List (HistorySample R)
  pub phase : Phase R

-- A report's sample, the capture under `RLock`, a rollback, a commit, and the acknowledgement.
pub data Move (R : Type 0) : Type 0 where
  enqueue : HistorySample R → Move R
  capture roll_back commit acknowledge : Move R

module _ {R : Type 0} where
  -- `enqueueHistoryLocked`
  unfoldable pub enqueue_history :
      HistorySample R → List (HistorySample R) → List (HistorySample R) × Bool
  enqueue_history sample pending =
      if leb max_pending_history_samples (length pending)
      then (pending, false)
      else (pending ++ (sample ∷ []), true)

  -- Does the loop of `filterHistorySamples` keep the sample of a node found so?
  unfoldable pub keeps_found : List Target → HistorySample R → Option (Option (List Target)) → Bool
  keeps_found shared sample none = false
  keeps_found shared sample (some profile) =
      if sample.ping
      then any (λ t. str_eq t.name sample.target && str_eq t.host sample.host)
          (targets_of shared profile)
      else true

  unfoldable pub keeps : NodeTargets → List Target → HistorySample R → Bool
  keeps nodes shared sample = keeps_found shared sample (lookup String_discrete sample.uuid nodes)

  unfoldable pub filter_history_samples :
      NodeTargets → List Target → List (HistorySample R) → List (HistorySample R)
  filter_history_samples nodes shared samples = keep (keeps nodes shared) samples

  -- `ackHistoryLocked`
  unfoldable pub ack_history : ℕ → List (HistorySample R) → List (HistorySample R)
  ack_history count pending = drop count pending

  -- Nothing to write ends the flush.
  unfoldable pub after_capture : ℕ → List (HistorySample R) → Phase R
  after_capture count batch = if count == 0 then idle else captured count batch

  -- One move, by the phase of the flush. A move that it does not make there changes nothing.
  unfoldable pub move_from :
      NodeTargets
      → List Target
      → Move R
      → List (HistorySample R)
      → List (HistorySample R)
      → Phase R
      → Queue R
  move_from nodes shared (enqueue sample) p w phase = record {
    pending = (enqueue_history sample p).0;
    written = w;
    phase = phase;
  }
  move_from nodes shared capture p w idle = record {
    pending = p;
    written = w;
    phase = after_capture (length p) (filter_history_samples nodes shared p);
  }
  move_from nodes shared roll_back p w (captured count batch) = record {
    pending = p;
    written = w;
    phase = idle;
  }
  move_from nodes shared commit p w (captured count batch) = record {
    pending = p;
    written = w ++ batch;
    phase = committed count;
  }
  move_from nodes shared acknowledge p w (committed count) = record {
    pending = ack_history count p;
    written = w;
    phase = idle;
  }
  move_from nodes shared _ p w phase = record { pending = p; written = w; phase = phase }

  unfoldable pub move : NodeTargets → List Target → Move R → Queue R → Queue R
  move nodes shared m q = move_from nodes shared m q.pending q.written q.phase

  unfoldable pub moves : NodeTargets → List Target → List (Move R) → Queue R → Queue R
  moves nodes shared [] q = q
  moves nodes shared (m ∷ ms) q = moves nodes shared ms (move nodes shared m q)
