-- ===== src/Alerts/State.antt =====
-- What the checks of internal/server/telegram.go keep for a node (internal/store/telegram_state.go),
-- and what they take: the configuration, the node, and the moment of the check. Floats are given
-- with the operations of theirs that the checks use. A message is told by its kind: texts and
-- templates are not part of the model.
use Prim.Native.String.{◌++◌ as str_append}
use vibemonitor.Prelude.{ℕ, Bool, ◌&&◌, List, ◌∷◌, String, Option, if◌then◌else◌}
use vibemonitor.Store.Queue.{Target}
use vibemonitor.Ping.Results.{PingResult}
use vibemonitor.Alerts.Delivery.{Retries, Delivery, deliver}

-- The comparisons, `max(0, threshold-5)`, `float64(a) / float64(b) * 100`, 0 and 85.
pub record Floats (F : Type 0) : Type 0 where
  pub less : F → F → Bool
  pub at_most : F → F → Bool
  pub same : F → F → Bool
  pub recovery : F → F
  pub percent : ℕ → ℕ → F
  pub zero_level : F
  pub memory_level : F

-- The kinds of messages; a key of the retry table is the node's id and its kind.
pub data Kind : Type 0 where
  offline_kind : Kind
  recovery_kind : Kind
  ping_timeout_kind : Kind
  ping_recovery_kind : Kind
  cpu_kind : Kind
  memory_kind : Kind
  warning_kind : Kind
  traffic_kind : Kind
  due_kind : Kind

abbrev pub suffix : Kind → String
suffix offline_kind = ":offline"
suffix recovery_kind = ":recovery"
suffix ping_timeout_kind = ":ping-timeout"
suffix ping_recovery_kind = ":ping-recovery"
suffix cpu_kind = ":cpu"
suffix memory_kind = ":memory"
suffix warning_kind = ":traffic-warning"
suffix traffic_kind = ":traffic"
suffix due_kind = ":due"

unfoldable pub retry_key : String → Kind → String
retry_key id kind = str_append id (suffix kind)

-- `TelegramAlertState`; times are Unix seconds, 0 for none.
pub record AlertState (F : Type 0) : Type 0 where
  pub ping_timeout_since : ℕ
  pub ping_timeout_alerted : Bool
  pub ping_targets_key : String
  pub cpu_high_since : ℕ
  pub memory_high_since : ℕ
  pub cpu_last_alert : ℕ
  pub memory_last_alert : ℕ
  pub cpu_threshold : F
  pub seen : Bool
  pub online : Bool
  pub offline_alerted : Bool
  pub cpu : Bool
  pub memory : Bool
  pub traffic : Bool
  pub traffic_warning_cycle : String
  pub reminder_date : String
  pub reminder_for : String

-- The parts of the configuration, of a profile, of a report and of a node that a check reads.
pub record AlertConfig : Type 0 where
  pub offline_delay_seconds : ℕ
  pub reminder_days : ℕ
  pub reminder_hour : ℕ
  pub ping_targets : List Target

pub record AlertProfile (F : Type 0) : Type 0 where
  pub alerts_disabled : Bool
  pub cpu_threshold : Option F
  pub traffic_warning_percent : F
  pub due_date : String
  pub targets : List Target

pub record AlertReport (F : Type 0) : Type 0 where
  pub cpu_usage : F
  pub ram_used : ℕ
  pub ram_total : ℕ
  pub ping_results : List PingResult

pub record AlertNode (F : Type 0) : Type 0 where
  pub id : String
  pub online : Bool
  pub last_seen : ℕ
  pub last_report : Option (AlertReport F)
  pub profile : Option (AlertProfile F)
  pub traffic_limit : ℕ
  pub cycle_total_used : ℕ
  pub cycle_start : ℕ

-- The moment of a check. `send` tells which messages the sender takes. The civil day, its text and
-- the hour are those of the configured zone; `parse_day` is time.Parse of a date, as a day number,
-- `cycle_text` the RFC 3339 text of an instant, and the last three fields are those of Targets.
pub record Moment : Type 0 where
  pub now : ℕ
  pub send : Kind → Bool
  pub hour : ℕ
  pub today : String
  pub day_number : ℕ
  pub parse_day : String → Option ℕ
  pub cycle_text : ℕ → String
  pub identity : Target → String
  pub sort_strings : List String → List String
  pub digest : String → String

-- The retry table, and the kinds of the messages that were delivered, the newest first.
pub record Work : Type 0 where
  pub table : Retries
  pub delivered : List Kind

pub record Progress (F : Type 0) : Type 0 where
  pub state : AlertState F
  pub work : Work

-- What a call of `deliver`, `threshold` or `sustainedThreshold` leaves.
unfoldable pub note : Kind → Delivery → Work → Work
note kind d w = record {
  table = d.table;
  delivered = if d.tried && d.delivered then kind ∷ w.delivered else w.delivered;
}

-- `a.deliver` for a kind, and `mark` on the state if it says that the message went out.
unfoldable pub deliver_then :
    {F : Type 0} → String → Moment → Kind → (AlertState F → AlertState F) → Progress F → Progress F
unfolding note retry_key
deliver_then id m kind mark p =
    let d = deliver (retry_key id kind) m.now (m.send kind) p.work.table in
    record { state = if d.delivered then mark p.state else p.state; work = note kind d p.work }
