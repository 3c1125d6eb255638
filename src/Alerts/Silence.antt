-- ===== src/Alerts/Silence.antt =====
-- When a check (internal/server/telegram_ping.go) announces that no target answers.
use vibemonitor.Prelude.{
  ℕ, ◌≤◌, ◌+◌, ◌≡◌, ◌≢◌, refl, sym, ap, ◌∙◌, true, false, List, [], ◌∷◌, String, Option, none, some,
  arith, inl, inr, All, Bool-cases, no_longer, ◌||◌, not, ltb,
}
use vibemonitor.Prelude.Clock.{is_zero}
use vibemonitor.Ping.Results.{PingResult}
use vibemonitor.Alerts.Targets.{Probe, all_targets_ping, targets_key}
use vibemonitor.Alerts.TargetsLaws.{
  TimedOut, IsOldest, all_targets_ping-TimedOut, all_targets_ping-IsOldest,
}
use vibemonitor.Alerts.State.{AlertConfig, AlertNode, Moment, Progress}
use vibemonitor.Alerts.State.Kind.{ping_timeout_kind, ping_recovery_kind}
use vibemonitor.Alerts.StateLaws.{deliver_then_ne}
use vibemonitor.Alerts.PingCheck.{
  targets_of, results_of, follow_targets, ping_answered, ping_silent, judge_probe, check_ping,
  timeout_since,
}

module _ {F : Type 0} where
  answered_quiet :
      (id : String) (m : Moment) (p : Progress F)
      → (ping_answered id m p).work.delivered ≢ ping_timeout_kind ∷ p.work.delivered
  unfolding ping_answered
  answered_quiet id m p h = elim (Bool-cases p.state.ping_timeout_alerted) [
    | inr calm ↦ absurd (no_longer _ _ (rw calm at h))
    | inl down ↦
        deliver_then_ne id m ping_timeout_kind ping_recovery_kind _ _ (λ e. cc) (rw down at h)
  ]

  silent_due :
      (cfg : AlertConfig) (id : String) (m : Moment) (at : ℕ) (p : Progress F)
      → (ping_silent cfg id m at p).work.delivered ≡ ping_timeout_kind ∷ p.work.delivered
      → (p.state.ping_timeout_alerted ≡ false)
        × (timeout_since at p.state + cfg.offline_delay_seconds ≤ at)
  unfolding ping_silent
  silent_due cfg id m at p h =
      elim (Bool-cases (
        p.state.ping_timeout_alerted
        || ltb at (timeout_since at p.state + cfg.offline_delay_seconds))) [
          | inl held ↦ absurd (no_longer _ _ (rw held at h))
          | inr due ↦ ground (arith, due)
        ]

  judge_probe-silent :
      (cfg : AlertConfig) (node : AlertNode F) (m : Moment) (found : Option Probe) (p : Progress F)
      → (judge_probe cfg node m found p).work.delivered ≡ ping_timeout_kind ∷ p.work.delivered
      → (node.online ≡ true)
        × ((probe : Probe) × (found ≡ some probe)
            × (probe.all_timeout ≡ true)
            × (p.state.ping_timeout_alerted ≡ false)
            × (timeout_since probe.measured_at p.state + cfg.offline_delay_seconds
                ≤ probe.measured_at))
  unfolding judge_probe
  judge_probe-silent cfg node m none p h = absurd (no_longer _ _ h)
  judge_probe-silent cfg node m (some probe) p h =
      elim (Bool-cases (not node.online || is_zero node.last_seen)) [
        | inl away ↦ absurd (no_longer _ _ (rw away at h))
        | inr here ↦ elim (Bool-cases probe.all_timeout) [
          | inr answered ↦ absurd (answered_quiet node.id m p (rw (here, answered) at h))
          | inl silent ↦
              let due = silent_due cfg node.id m probe.measured_at p (rw (here, silent) at h) in
              (ground (arith, here), (probe, refl, silent, due.0, due.1))
        ]
      ]

  follow_targets-delivered :
      (key id : String) (p : Progress F)
      → (follow_targets key id p).work.delivered ≡ p.work.delivered
  unfolding follow_targets
  follow_targets-delivered key id p = ground arith

  -- A check that announces that the targets are silent finds the node online, at least one target, and
  -- for every target a fresh result in the last report that timed out; and the time of the oldest of
  -- these results is, by the configured delay at least, later than the start of the silence on record,
  -- once the record is brought to these targets; with no start on record, the silence starts there.
  pub check_ping-silent :
      (cfg : AlertConfig) (node : AlertNode F) (m : Moment) (p : Progress F)
      → (check_ping cfg node m p).work.delivered ≡ ping_timeout_kind ∷ p.work.delivered
      → (node.online ≡ true)
        × (targets_of cfg node ≢ [])
        × ((rs : List PingResult) × (at : ℕ) × (results_of node ≡ some rs)
            × All (TimedOut m.now rs) (targets_of cfg node)
            × IsOldest rs (targets_of cfg node) at
            × (timeout_since at
                    (follow_targets
                      (targets_key m.identity m.sort_strings m.digest (targets_of cfg node))
                      node.id
                      p).state
                  + cfg.offline_delay_seconds
                ≤ at))
  unfolding check_ping
  check_ping-silent cfg node m p h =
      let key = targets_key m.identity m.sort_strings m.digest (targets_of cfg node) in
      let q = follow_targets key node.id p in
      let (online, (probe, found, silent, fresh, waited)) =
        judge_probe-silent cfg node m
          (all_targets_ping m.now (targets_of cfg node) (results_of node)) q
          (h ∙ ap (λ l. ping_timeout_kind ∷ l) (sym (follow_targets-delivered key node.id p))) in
      let (some_target, (rs, e, all)) = all_targets_ping-TimedOut m.now _ _ probe found silent in
      let oldest : IsOldest rs (targets_of cfg node) probe.measured_at =
        all_targets_ping-IsOldest m.now (targets_of cfg node) rs probe
          (ap (all_targets_ping m.now (targets_of cfg node)) (sym e) ∙ found) in
      (online, some_target, (rs, probe.measured_at, e, all, oldest, waited))
