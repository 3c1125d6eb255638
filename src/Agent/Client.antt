-- ===== src/Agent/Client.antt =====
-- The agent's loops: `collectReports` of internal/agent/sampling.go, and `Run` and `handleRPCResult`
-- of internal/agent/client.go. Channels of capacity one are fields; a run is a list of happenings,
-- with what the collector and the server answered. `R` is a report's contents. The context is not
-- done. The texts that the agent logs are the values of `log_message`.
use text.Mathlib.Text.{◌==◌ as str_eq}
use vibemonitor.Prelude.{
  ℕ, ◌*◌, Bool, true, false, ◌&&◌, ◌||◌, List, [], ◌∷◌, String, Option, none, some, if◌then◌else◌,
}
use vibemonitor.Prelude.Clock.{minute, is_zero, sub_ge}
use vibemonitor.Store.Queue.{Target}
use vibemonitor.Ping.Results.{PingResult}
use vibemonitor.Agent.ErrorLog.{ErrorLog, log_message, no_errors}

-- What `handleRPCResult` reads of a result: "" for no epoch, and the targets if they decode.
pub record RpcResult : Type 0 where
  pub network_identity_epoch : String
  pub ping_targets : Option (List Target)

-- An error's text, or the result, if it is a map.
pub data Posted : Type 0 where
  failed : String → Posted
  succeeded : Option RpcResult → Posted

-- A call of the server.
pub data Request (R : Type 0) : Type 0 where
  basic_info : Request R
  report : R → Option (List PingResult) → Request R

-- `reports`, the three logs of errors, `lastBasicInfo`, and the fields of `Client`; a slice may be
-- nil. `requests` are the calls so far, the newest first.
pub record Agent (R : Type 0) : Type 0 where
  pub pending : Option R
  pub sample_failures : ErrorLog
  pub basic_failures : ErrorLog
  pub report_failures : ErrorLog
  pub last_basic_info : ℕ
  pub ping_targets : Option (List Target)
  pub ping_results : Option (List PingResult)
  pub identity_epoch : String
  pub ping_trigger : Bool
  pub identity_trigger : Bool
  pub requests : List (Request R)

-- `reflect.DeepEqual`
unfoldable pub equal_targets : List Target → List Target → Bool
equal_targets [] [] = true
equal_targets [] (t ∷ ts) = false
equal_targets (s ∷ ss) [] = false
equal_targets (s ∷ ss) (t ∷ ts) =
    str_eq s.name t.name && str_eq s.host t.host && equal_targets ss ts

unfoldable pub same_targets : Option (List Target) → List Target → Bool
same_targets none ts = false
same_targets (some ss) ts = equal_targets ss ts

-- An attempt at the basic information: what the collector and the server say, and when.
pub record BasicTry : Type 0 where
  pub now : ℕ
  pub collected : Option String
  pub posted : Posted

abbrev pub basic_info_interval : ℕ
basic_info_interval = 15 * minute

-- `lastBasicInfo.IsZero() || time.Since(lastBasicInfo) >= 15*time.Minute`
unfoldable pub basic_due : ℕ → ℕ → Bool
basic_due now last = is_zero last || sub_ge now last basic_info_interval

module _ {R : Type 0} where
  unfoldable pub follow_epoch : String → Agent R → Agent R
  follow_epoch epoch a =
      if str_eq epoch "" || str_eq a.identity_epoch epoch
      then a
      else record a { identity_epoch = epoch; identity_trigger = true }

  unfoldable pub follow_targets : Option (List Target) → Agent R → Agent R
  unfolding same_targets
  follow_targets none a = a
  follow_targets (some targets) a =
      if same_targets a.ping_targets targets
      then a
      else record a { ping_targets = some targets; ping_trigger = true }

  -- `handleRPCResult`
  unfoldable pub handle_rpc_result : Option RpcResult → Agent R → Agent R
  unfolding follow_epoch follow_targets
  handle_rpc_result none a = a
  handle_rpc_result (some result) a =
      follow_targets result.ping_targets (follow_epoch result.network_identity_epoch a)

  abbrev pub basic_failed : String → ℕ → Agent R → Agent R
  basic_failed error now a = record a {
    basic_failures = (log_message error now a.basic_failures).0;
  }

  unfoldable pub basic_posted : ℕ → Posted → Agent R → Agent R
  unfolding handle_rpc_result
  basic_posted now (failed error) a = basic_failed error now a
  basic_posted now (succeeded result) a =
      handle_rpc_result result (record a { basic_failures = no_errors; last_basic_info = now })

  -- `reportBasicInfo`; the collector's error comes first.
  unfoldable pub try_basic : ℕ → Option String → Posted → Agent R → Agent R
  unfolding basic_posted
  try_basic now (some error) posted a = basic_failed error now a
  try_basic now none posted a =
      basic_posted now posted (record a { requests = basic_info ∷ a.requests })

  abbrev pub report_basic_info : BasicTry → Agent R → Agent R
  report_basic_info t a = try_basic t.now t.collected t.posted a

  -- One tick of `collectReports`: `fresh` is the measured report.
  unfoldable pub sampled : R → Agent R → Agent R
  sampled fresh a = record a { pending = some fresh; sample_failures = no_errors }

  unfoldable pub sample_failed : String → ℕ → Agent R → Agent R
  sample_failed error now a = record a {
    pending = none;
    sample_failures = (log_message error now a.sample_failures).0;
  }

  unfoldable pub after_report : ℕ → BasicTry → Agent R → Agent R
  unfolding try_basic basic_due
  after_report now t a = if basic_due now a.last_basic_info then report_basic_info t a else a

  -- The end of a tick of `Run` after its call.
  unfoldable pub report_posted : ℕ → Posted → BasicTry → Agent R → Agent R
  unfolding handle_rpc_result after_report
  report_posted now (failed error) t a = record a {
    last_basic_info = 0;
    report_failures = (log_message error now a.report_failures).0;
  }
  report_posted now (succeeded result) t a =
      after_report now t (handle_rpc_result result (record a { report_failures = no_errors }))

  unfoldable pub upload : ℕ → Posted → BasicTry → Option R → Agent R → Agent R
  unfolding report_posted
  upload now posted t none a = a
  upload now posted t (some fresh) a =
      report_posted now posted t
        (record a { pending = none; requests = report fresh a.ping_results ∷ a.requests })

  -- The case `<-ticker.C` of `Run`
  unfoldable pub tick : ℕ → Posted → BasicTry → Agent R → Agent R
  unfolding upload
  tick now posted t a = upload now posted t a.pending a

-- What happens to an agent: a sample, a refresh of the basic information, a tick, a round of probes,
-- and the two workers, which take their signals.
pub data Happening (R : Type 0) : Type 0 where
  sample : R → Happening R
  no_sample : String → ℕ → Happening R
  refresh : BasicTry → Happening R
  ticked : ℕ → Posted → BasicTry → Happening R
  probed : Option (List PingResult) → Happening R
  ping_signalled : Happening R
  identity_signalled : Happening R

module _ {R : Type 0} where
  unfoldable pub happen : Happening R → Agent R → Agent R
  unfolding sampled sample_failed try_basic tick
  happen (sample fresh) a = sampled fresh a
  happen (no_sample error now) a = sample_failed error now a
  happen (refresh t) a = report_basic_info t a
  happen (ticked now posted t) a = tick now posted t a
  happen (probed results) a = record a { ping_results = results }
  happen ping_signalled a = record a { ping_trigger = false }
  happen identity_signalled a = record a { identity_trigger = false }

  unfoldable pub run : List (Happening R) → Agent R → Agent R
  unfolding happen
  run [] a = a
  run (h ∷ hs) a = run hs (happen h a)
