-- ===== src/Alerts/Announced.antt =====
-- What the messages of a node's checks (internal/server/telegram.go) have told of outages, of the
-- traffic of a billing cycle and of due dates, and the steps of a check that leave it as it is.
use vibemonitor.Prelude.{
  ℕ, ◌≡◌, refl, ap, ◌∙◌, Bool, true, false, List, [], ◌∷◌, String, Option, none, some, arith, inl,
  inr, if◌then◌else◌,
}
use vibemonitor.Alerts.Delivery.{Delivery, Level}
use vibemonitor.Alerts.Targets.{Probe}
use vibemonitor.Alerts.State.{
  Floats, Kind, AlertState, AlertConfig, AlertReport, AlertNode, Moment, Work, Progress, note,
  deliver_then,
}
use vibemonitor.Alerts.State.Kind.{
  offline_kind, recovery_kind, ping_timeout_kind, ping_recovery_kind, cpu_kind, memory_kind,
  warning_kind, traffic_kind, due_kind,
}
use vibemonitor.Alerts.StateLaws.{note-cases, deliver_then-cases}
use vibemonitor.Alerts.PingCheck.{
  follow_targets, ping_answered, ping_silent, judge_probe, check_ping,
}
use vibemonitor.Alerts.Check.{
  after_cpu, after_memory, after_traffic, clear_cpu, check_traffic, clear_high, follow_threshold,
  judge_cpu, check_cpu, check_memory, check_resources,
}

-- The kinds of a list that pass a test.
unfoldable pub select : (Kind → Bool) → List Kind → List Kind
select f [] = []
select f (k ∷ log) = let rest = select f log in if f k then k ∷ rest else rest

abbrev pub is_outage : Kind → Bool
is_outage offline_kind = true
is_outage recovery_kind = true
is_outage ping_timeout_kind = false
is_outage ping_recovery_kind = false
is_outage cpu_kind = false
is_outage memory_kind = false
is_outage warning_kind = false
is_outage traffic_kind = false
is_outage due_kind = false

abbrev pub is_warning : Kind → Bool
is_warning offline_kind = false
is_warning recovery_kind = false
is_warning ping_timeout_kind = false
is_warning ping_recovery_kind = false
is_warning cpu_kind = false
is_warning memory_kind = false
is_warning warning_kind = true
is_warning traffic_kind = false
is_warning due_kind = false

abbrev pub is_due : Kind → Bool
is_due offline_kind = false
is_due recovery_kind = false
is_due ping_timeout_kind = false
is_due ping_recovery_kind = false
is_due cpu_kind = false
is_due memory_kind = false
is_due warning_kind = false
is_due traffic_kind = false
is_due due_kind = true

abbrev pub is_other : Kind → Bool
is_other offline_kind = false
is_other recovery_kind = false
is_other ping_timeout_kind = true
is_other ping_recovery_kind = true
is_other cpu_kind = true
is_other memory_kind = true
is_other warning_kind = false
is_other traffic_kind = true
is_other due_kind = false

-- The marks of a state, and the messages of their kinds, the newest first.
pub record Announced : Type 0 where
  pub offline : Bool
  pub outages : List Kind
  pub cycle : String
  pub warnings : List Kind
  pub reminder_date : String
  pub reminder_for : String
  pub reminders : List Kind

module _ {F : Type 0} where
  unfoldable pub announced_of : AlertState F → List Kind → Announced
  unfolding select
  announced_of s log = record {
    offline = s.offline_alerted;
    outages = select is_outage log;
    cycle = s.traffic_warning_cycle;
    warnings = select is_warning log;
    reminder_date = s.reminder_date;
    reminder_for = s.reminder_for;
    reminders = select is_due log;
  }

  abbrev pub announced : Progress F → Announced
  announced p = announced_of p.state p.work.delivered

  announced_other :
      (k : Kind) (s : AlertState F) (log : List Kind)
      → is_other k ≡ true
      → announced_of s (k ∷ log) ≡ announced_of s log
  unfolding announced_of
  announced_other offline_kind s log e = absurd cc
  announced_other recovery_kind s log e = absurd cc
  announced_other ping_timeout_kind s log e = refl
  announced_other ping_recovery_kind s log e = refl
  announced_other cpu_kind s log e = refl
  announced_other memory_kind s log e = refl
  announced_other warning_kind s log e = absurd cc
  announced_other traffic_kind s log e = refl
  announced_other due_kind s log e = absurd cc

  note_other :
      (k : Kind) (d : Delivery) (w : Work) (s : AlertState F)
      → is_other k ≡ true
      → announced_of s (note k d w).delivered ≡ announced_of s w.delivered
  note_other k d w s e = elim (note-cases k d w) [
    | inl kept ↦ ap (announced_of s) kept
    | inr out ↦ ap (announced_of s) out ∙ announced_other k s w.delivered e
  ]

  deliver_other :
      (id : String) (m : Moment) (k : Kind) (mark : AlertState F → AlertState F) (p : Progress F)
      → is_other k ≡ true
      → announced_of (mark p.state) p.work.delivered ≡ announced p
      → announced (deliver_then id m k mark p) ≡ announced p
  deliver_other id m k mark p e same = elim (deliver_then-cases id m k mark p) [
    | inl (log, state) ↦
        rw (log, state) (announced_other k (mark p.state) p.work.delivered e ∙ same)
    | inr (log, state) ↦ rw (log, state) refl
  ]

  branch :
      (b : Bool) (x y p : Progress F)
      → announced x ≡ announced p
      → announced y ≡ announced p
      → announced (if b then x else y) ≡ announced p
  branch true x y p hx hy = hx
  branch false x y p hx hy = hy

  announced-follow_targets :
      (key id : String) (p : Progress F) → announced (follow_targets key id p) ≡ announced p
  unfolding follow_targets announced_of
  announced-follow_targets key id p = branch _ _ _ p refl refl

  announced-ping_answered :
      (id : String) (m : Moment) (p : Progress F) → announced (ping_answered id m p) ≡ announced p
  unfolding ping_answered announced_of
  announced-ping_answered id m p =
      branch _ _ _ p (deliver_other id m ping_recovery_kind _ _ refl refl) refl

  announced-ping_silent :
      (cfg : AlertConfig) (id : String) (m : Moment) (at : ℕ) (p : Progress F)
      → announced (ping_silent cfg id m at p) ≡ announced p
  unfolding ping_silent announced_of
  announced-ping_silent cfg id m at p =
      branch _ _ _ p refl (deliver_other id m ping_timeout_kind _ _ refl refl)

  calm_since :
      (p : Progress F)
      → announced (record p { state = record p.state { ping_timeout_since = 0 } }) ≡ announced p
  unfolding announced_of
  calm_since p = refl

  announced-judge_probe :
      (cfg : AlertConfig) (node : AlertNode F) (m : Moment) (probe : Option Probe) (p : Progress F)
      → announced (judge_probe cfg node m probe p) ≡ announced p
  unfolding judge_probe
  announced-judge_probe cfg node m none p = calm_since p
  announced-judge_probe cfg node m (some probe) p = branch _ _ _ p (calm_since p) (
      branch _ _ _ p (announced-ping_answered node.id m p)
        (announced-ping_silent cfg node.id m probe.measured_at p))

  pub announced-check_ping :
      (cfg : AlertConfig) (node : AlertNode F) (m : Moment) (p : Progress F)
      → announced (check_ping cfg node m p) ≡ announced p
  unfolding check_ping
  announced-check_ping cfg node m p =
      announced-judge_probe cfg node m _ _ ∙ announced-follow_targets _ node.id p

  announced-after_cpu :
      (r : Level × Delivery) (p : Progress F) → announced (after_cpu r p) ≡ announced p
  unfolding after_cpu announced_of
  announced-after_cpu (level, d) p = note_other cpu_kind d p.work p.state refl

  announced-after_memory :
      (r : Level × Delivery) (p : Progress F) → announced (after_memory r p) ≡ announced p
  unfolding after_memory announced_of
  announced-after_memory (level, d) p = note_other memory_kind d p.work p.state refl

  announced-after_traffic :
      (d : Delivery) (p : Progress F) → announced (after_traffic d p) ≡ announced p
  unfolding after_traffic announced_of
  announced-after_traffic d p = note_other traffic_kind d p.work p.state refl

  pub announced-check_traffic :
      (node : AlertNode F) (m : Moment) (p : Progress F)
      → announced (check_traffic node m p) ≡ announced p
  unfolding check_traffic
  announced-check_traffic node m p = announced-after_traffic _ p

  pub announced-clear_high :
      (node : AlertNode F) (p : Progress F) → announced (clear_high node p) ≡ announced p
  unfolding clear_high announced_of
  announced-clear_high node p = branch _ _ _ p refl refl

  memory_since :
      (p : Progress F)
      → announced (record p { state = record p.state { memory_high_since = 0 } }) ≡ announced p
  unfolding announced_of
  memory_since p = refl

module _ {F : Type 0} (fl : Floats F) where
  follow_threshold_same :
      (limit : F) (s : AlertState F) (log : List Kind)
      → announced_of (follow_threshold fl limit s) log ≡ announced_of s log
  unfolding follow_threshold announced_of
  follow_threshold_same limit s log = ground arith

  announced-check_cpu :
      (id : String) (m : Moment) (usage : F) (limit : Option F) (p : Progress F)
      → announced (check_cpu fl id m usage limit p) ≡ announced p
  unfolding check_cpu judge_cpu clear_cpu
  announced-check_cpu id m usage none p = unfold announced_of in refl
  announced-check_cpu id m usage (some limit) p =
      announced-after_cpu _ _ ∙ follow_threshold_same limit p.state p.work.delivered

  announced-check_memory :
      (id : String) (m : Moment) (report : AlertReport F) (p : Progress F)
      → announced (check_memory fl id m report p) ≡ announced p
  unfolding check_memory
  announced-check_memory id m report p =
      branch _ _ _ p (announced-after_memory _ p) (memory_since p)

  pub announced-check_resources :
      (node : AlertNode F) (m : Moment) (report : Option (AlertReport F)) (p : Progress F)
      → announced (check_resources fl node m report p) ≡ announced p
  unfolding check_resources
  announced-check_resources node m none p = refl
  announced-check_resources node m (some report) p =
      branch _ _ _ p
        (announced-check_memory node.id m report _
          ∙ announced-check_cpu node.id m report.cpu_usage _ p)
        refl
