-- ===== src/Alerts/Engine.antt =====
-- `telegramAlerts` of internal/server/telegram.go: the states of the nodes, what of them is saved,
-- and a whole call of `check`. The database is given: whether a save or a removal returns no error,
-- and what a load returns. A context is never cancelled here.
use text.Mathlib.Text.{◌==◌ as str_eq}
use vibemonitor.Prelude.{
  Bool, true, false, not, ◌&&◌, ◌||◌, List, [], ◌∷◌, String, Option, none, some, value_or,
  if◌then◌else◌, ◌==◌, map, ◌++◌,
}
use vibemonitor.Prelude.Assoc.{String_discrete, lookup, insert, delete}
use vibemonitor.Alerts.Delivery.{Retries}
use vibemonitor.Alerts.State.{
  Floats, Kind, AlertState, AlertConfig, AlertProfile, AlertNode, Moment,
}
use vibemonitor.Alerts.Check.{check_node}

-- The functions of the engine; `save` is nil in an engine without a database, and so is `remove`.
pub record Database (F : Type 0) : Type 0 where
  pub load : String → Option (List (String × AlertState F))
  pub save : Option (String → AlertState F → Bool)
  pub remove : Option (String → Bool)

-- `telegramAlerts`, with the messages that it delivered, each with its node, the newest first.
pub record Engine (F : Type 0) : Type 0 where
  pub retry : Retries
  pub states : List (String × AlertState F)
  pub saved : List (String × AlertState F)
  pub epoch : String
  pub delivered : List (String × Kind)

-- The parts of the configuration that are about all nodes.
pub record Settings : Type 0 where
  pub enabled : Bool
  pub alert_epoch : String
  pub bot_token : String
  pub chat_id : String
  pub zone_known : Bool
  pub alerts : AlertConfig

-- `telegramAlertEpoch`; `fingerprint` is the hexadecimal text of the first 16 bytes of the SHA-256
-- of the token, a zero byte and the chat.
unfoldable pub telegram_alert_epoch : (String → String → String) → Settings → String
telegram_alert_epoch fingerprint cfg =
    if not (str_eq cfg.alert_epoch "")
    then cfg.alert_epoch
    else fingerprint cfg.bot_token cfg.chat_id

abbrev pub bool_eq : Bool → Bool → Bool
bool_eq true b = b
bool_eq false b = not b

module _ {F : Type 0} where
  -- `delete(a.states, id)` and `delete(a.saved, id)`
  abbrev pub drop_state : String → Engine F → Engine F
  drop_state id e = record e {
    states = delete String_discrete id e.states;
    saved = delete String_discrete id e.saved;
  }

  -- `deleteState`
  unfoldable pub delete_state : Option (String → Bool) → String → Engine F → Engine F
  delete_state none id e = drop_state id e
  delete_state (some remove) id e = if remove id then drop_state id e else e

  -- The loop over the states whose nodes are gone.
  unfoldable pub delete_states :
      Option (String → Bool) → (String → Bool) → List (String × AlertState F) → Engine F → Engine F
  unfolding delete_state
  delete_states remove active [] e = e
  delete_states remove active ((id, s) ∷ states) e =
      delete_states remove active states (if active id then e else delete_state remove id e)

  -- `ok && previous == state`
  unfoldable pub is_saved :
      (AlertState F → AlertState F → Bool) → AlertState F → Option (AlertState F) → Bool
  is_saved same state none = false
  is_saved same state (some previous) = same previous state

  -- `node.Profile != nil && node.Profile.AlertsDisabled`
  abbrev pub alerts_off : Option (AlertProfile F) → Bool
  alerts_off none = false
  alerts_off (some pr) = pr.alerts_disabled

  -- `active`
  unfoldable pub is_active : List (AlertNode F) → String → Bool
  is_active [] id = false
  is_active (node ∷ nodes) id = str_eq node.id id || is_active nodes id

module _ {F : Type 0} (fl : Floats F) where
  -- Go's zero value
  abbrev pub no_state : AlertState F
  no_state = record {
    ping_timeout_since = 0;
    ping_timeout_alerted = false;
    ping_targets_key = "";
    cpu_high_since = 0;
    memory_high_since = 0;
    cpu_last_alert = 0;
    memory_last_alert = 0;
    cpu_threshold = fl.zero_level;
    seen = false;
    online = false;
    offline_alerted = false;
    cpu = false;
    memory = false;
    traffic = false;
    traffic_warning_cycle = "";
    reminder_date = "";
    reminder_for = "";
  }

  -- `==` of the structs
  unfoldable pub same_state : AlertState F → AlertState F → Bool
  same_state a b =
      a.ping_timeout_since == b.ping_timeout_since
      && bool_eq a.ping_timeout_alerted b.ping_timeout_alerted
      && str_eq a.ping_targets_key b.ping_targets_key
      && a.cpu_high_since == b.cpu_high_since
      && a.memory_high_since == b.memory_high_since
      && a.cpu_last_alert == b.cpu_last_alert
      && a.memory_last_alert == b.memory_last_alert
      && fl.same a.cpu_threshold b.cpu_threshold
      && bool_eq a.seen b.seen
      && bool_eq a.online b.online
      && bool_eq a.offline_alerted b.offline_alerted
      && bool_eq a.cpu b.cpu
      && bool_eq a.memory b.memory
      && bool_eq a.traffic b.traffic
      && str_eq a.traffic_warning_cycle b.traffic_warning_cycle
      && str_eq a.reminder_date b.reminder_date
      && str_eq a.reminder_for b.reminder_for

  -- `persistState`
  unfoldable pub persist_state :
      Option (String → AlertState F → Bool) → String → AlertState F → Engine F → Engine F
  unfolding same_state is_saved
  persist_state none id state e = e
  persist_state (some save) id state e =
      if is_saved same_state state (lookup String_discrete id e.saved)
      then e
      else if save id state
      then record e { saved = insert String_discrete id state e.saved }
      else e

  -- One turn of the loop over the nodes.
  unfoldable pub check_one :
      Database F → AlertConfig → (String → Moment) → AlertNode F → Engine F → Engine F
  unfolding delete_state persist_state
  check_one db cfg moment node e =
      if alerts_off node.profile
      then delete_state db.remove node.id e
      else let p = check_node fl cfg node (moment node.id) (record {
        state = value_or no_state (lookup String_discrete node.id e.states);
        work = record { table = e.retry; delivered = [] };
      }) in
        persist_state db.save node.id p.state (record e {
          retry = p.work.table;
          states = insert String_discrete node.id p.state e.states;
          delivered = map (λ kind. (node.id, kind)) p.work.delivered ++ e.delivered;
        })

  unfoldable pub check_all :
      Database F → AlertConfig → (String → Moment) → List (AlertNode F) → Engine F → Engine F
  unfolding check_one
  check_all db cfg moment [] e = e
  check_all db cfg moment (node ∷ nodes) e =
      check_all db cfg moment nodes (check_one db cfg moment node e)

-- Without alerts
abbrev pub silent : {F : Type 0} → Engine F → Engine F
silent e = record e { states = []; saved = []; epoch = ""; retry = [] }

-- The states of the epoch; `none` if they cannot be loaded.
unfoldable pub follow_epoch : {F : Type 0} → Database F → String → Engine F → Option (Engine F)
follow_epoch db epoch e = if str_eq e.epoch epoch then some e else elim (db.load epoch) [
  | none ↦ none
  | some loaded ↦ some (record e { states = loaded; saved = loaded; epoch = epoch; retry = [] })
]

-- `check`
unfoldable pub check :
    {F : Type 0}
    → Floats F
    → (String → String → String)
    → Database F
    → Settings
    → (String → Moment)
    → List (AlertNode F)
    → Engine F
    → Engine F
unfolding telegram_alert_epoch follow_epoch check_all delete_states is_active
check fl fingerprint db cfg moment nodes e =
    if not cfg.enabled
    then silent e
    else elim (follow_epoch db (telegram_alert_epoch fingerprint cfg) e) [
      | none ↦ e
      | some e' ↦
          if not cfg.zone_known
          then e'
          else let done = check_all fl db cfg.alerts moment nodes e' in
            delete_states db.remove (is_active nodes) done.states done
    ]
