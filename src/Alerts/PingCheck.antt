-- ===== src/Alerts/PingCheck.antt =====
-- `checkAllTargetsPing` of internal/server/telegram_ping.go, as a step of a check.
use text.Mathlib.Text.{◌==◌ as str_eq}
use vibemonitor.Prelude.{
  ℕ, ◌+◌, true, false, not, ◌||◌, List, String, Option, none, some, if◌then◌else◌, ltb, ◌==◌,
}
use vibemonitor.Prelude.Clock.{is_zero}
use vibemonitor.Prelude.Assoc.{String_discrete, delete}
use vibemonitor.Store.Queue.{Target}
use vibemonitor.Ping.Results.{PingResult}
use vibemonitor.Alerts.Targets.{Probe, targets_key, all_targets_ping}
use vibemonitor.Alerts.State.{
  Kind, AlertState, AlertConfig, AlertNode, Moment, Progress, retry_key, deliver_then,
}
use vibemonitor.Alerts.State.Kind.{ping_timeout_kind, ping_recovery_kind}

-- `delete(a.retry, …)`
abbrev pub forget_retry : {F : Type 0} → String → Kind → Progress F → Progress F
forget_retry id kind p = record p {
  work = record p.work { table = delete String_discrete (retry_key id kind) p.work.table };
}

module _ {F : Type 0} where
  abbrev pub targets_of : AlertConfig → AlertNode F → List Target
  targets_of cfg node = elim node.profile [ none ↦ cfg.ping_targets | some pr ↦ pr.targets ]

  abbrev pub results_of : AlertNode F → Option (List PingResult)
  results_of node = elim node.last_report [ none ↦ none | some r ↦ some r.ping_results ]

  -- The first `if` of `checkAllTargetsPing`: other targets start afresh.
  unfoldable pub follow_targets : String → String → Progress F → Progress F
  unfolding retry_key
  follow_targets key id p =
      if str_eq p.state.ping_targets_key key
      then p
      else forget_retry id ping_recovery_kind (
          forget_retry id ping_timeout_kind (record p {
            state = record p.state {
              ping_targets_key = key;
              ping_timeout_since = 0;
              ping_timeout_alerted = false;
            };
          }))

  unfoldable pub ping_answered : String → Moment → Progress F → Progress F
  unfolding retry_key
  ping_answered id m p =
      let q =
        forget_retry id ping_timeout_kind
          (record p { state = record p.state { ping_timeout_since = 0 } }) in
      if p.state.ping_timeout_alerted
      then deliver_then id m ping_recovery_kind (λ s. record s { ping_timeout_alerted = false }) q
      else q

  abbrev pub timeout_since : ℕ → AlertState F → ℕ
  timeout_since measured_at state =
      if state.ping_timeout_since == 0 then measured_at else state.ping_timeout_since

  unfoldable pub ping_silent : AlertConfig → String → Moment → ℕ → Progress F → Progress F
  unfolding retry_key
  ping_silent cfg id m measured_at p =
      let since = timeout_since measured_at p.state in
      let q =
        forget_retry id ping_recovery_kind
          (record p { state = record p.state { ping_timeout_since = since } }) in
      if p.state.ping_timeout_alerted || ltb measured_at (since + cfg.offline_delay_seconds)
      then q
      else deliver_then id m ping_timeout_kind (λ s. record s { ping_timeout_alerted = true }) q

  -- What follows of `checkAllTargetsPing` when the results are complete.
  unfoldable pub judge_probe :
      AlertConfig → AlertNode F → Moment → Option Probe → Progress F → Progress F
  judge_probe cfg node m none p = record p { state = record p.state { ping_timeout_since = 0 } }
  judge_probe cfg node m (some probe) p =
      if not node.online || is_zero node.last_seen
      then record p { state = record p.state { ping_timeout_since = 0 } }
      else if not probe.all_timeout
      then ping_answered node.id m p
      else ping_silent cfg node.id m probe.measured_at p

  -- `checkAllTargetsPing`
  unfoldable pub check_ping : AlertConfig → AlertNode F → Moment → Progress F → Progress F
  unfolding follow_targets judge_probe
  check_ping cfg node m p =
      let targets = targets_of cfg node in
      let key = targets_key m.identity m.sort_strings m.digest targets in
      judge_probe cfg node m (all_targets_ping m.now targets (results_of node))
        (follow_targets key node.id p)
