-- ===== src/Alerts/Check.antt =====
-- One check of one node: the body of the loop of `check` in internal/server/telegram.go. Each step
-- takes what the check has done so far. The clock is read once.
use text.Mathlib.Text.{◌==◌ as str_eq}
use vibemonitor.Prelude.{
  ℕ, ◌*◌, ◌-◌, Bool, true, false, not, ◌&&◌, String, Option, none, some, if◌then◌else◌, ltb, leb,
  ◌==◌, min,
}
use vibemonitor.Prelude.Int.{ℤ, pos, sub_ℕ, ltb_ℤ}
use vibemonitor.Prelude.Clock.{second, unix, is_zero, sub_ge}
use vibemonitor.Alerts.Delivery.{Level, Reading, Delivery, threshold, sustained_threshold}
use vibemonitor.Alerts.State.{
  Floats, AlertState, AlertConfig, AlertProfile, AlertReport, AlertNode, Moment, Progress,
  retry_key, note, deliver_then,
}
use vibemonitor.Alerts.State.Kind.{
  offline_kind, recovery_kind, cpu_kind, memory_kind, warning_kind, traffic_kind, due_kind,
}
use vibemonitor.Alerts.PingCheck.{check_ping}

module _ {F : Type 0} where
  -- What a delivered message sets in the state.
  unfoldable pub mark_offline : Bool → AlertState F → AlertState F
  mark_offline offline s = record s { offline_alerted = offline }

  unfoldable pub mark_warning : String → AlertState F → AlertState F
  mark_warning cycle s = record s { traffic_warning_cycle = cycle }

  unfoldable pub mark_due : String → String → AlertState F → AlertState F
  mark_due today due s = record s { reminder_date = today; reminder_for = due }

  unfoldable pub offline_due : AlertConfig → AlertNode F → Moment → AlertState F → Bool
  offline_due cfg node m state =
      not node.online
      && not (is_zero node.last_seen)
      && sub_ge m.now node.last_seen (cfg.offline_delay_seconds * second)
      && not state.offline_alerted

  unfoldable pub check_offline : AlertConfig → AlertNode F → Moment → Progress F → Progress F
  unfolding offline_due
  check_offline cfg node m p =
      if offline_due cfg node m p.state
      then deliver_then node.id m offline_kind (mark_offline true) p
      else if node.online && p.state.offline_alerted
      then deliver_then node.id m recovery_kind (mark_offline false) p
      else p

  -- The level that `sustainedThreshold` left, and its answer, for a resource.
  unfoldable pub after_cpu : Level × Delivery → Progress F → Progress F
  unfolding note
  after_cpu (level, d) p = record {
    state = record p.state {
      cpu = level.active;
      cpu_high_since = level.since;
      cpu_last_alert = level.last_alert;
    };
    work = note cpu_kind d p.work;
  }

  unfoldable pub after_memory : Level × Delivery → Progress F → Progress F
  unfolding note
  after_memory (level, d) p = record {
    state = record p.state {
      memory = level.active;
      memory_high_since = level.since;
      memory_last_alert = level.last_alert;
    };
    work = note memory_kind d p.work;
  }

  -- Without a threshold of the CPU.
  unfoldable pub clear_cpu : Progress F → Progress F
  clear_cpu p = record p { state = record p.state { cpu = false; cpu_high_since = 0 } }

  unfoldable pub after_traffic : Delivery → Progress F → Progress F
  unfolding note
  after_traffic d p = record {
    state = record p.state { traffic = d.delivered };
    work = note traffic_kind d p.work;
  }

  unfoldable pub check_traffic : AlertNode F → Moment → Progress F → Progress F
  check_traffic node m p =
      let high = ltb 0 node.traffic_limit && leb node.traffic_limit node.cycle_total_used in
      after_traffic
        (threshold p.state.traffic high (retry_key node.id traffic_kind) m.now (m.send traffic_kind)
          p.work.table)
        p

  -- Offline nodes start the thirty seconds of their resources afresh.
  unfoldable pub clear_high : AlertNode F → Progress F → Progress F
  clear_high node p =
      if node.online
      then p
      else record p { state = record p.state { cpu_high_since = 0; memory_high_since = 0 } }

module _ {F : Type 0} (fl : Floats F) where
  unfoldable pub reading : F → F → Reading
  reading value limit = record {
    below = fl.less value limit;
    recovered = fl.at_most value (fl.recovery limit);
  }

  -- Another threshold starts afresh.
  unfoldable pub follow_threshold : F → AlertState F → AlertState F
  follow_threshold limit state =
      if fl.same state.cpu_threshold limit
      then state
      else record state { cpu_high_since = 0; cpu = false; cpu_threshold = limit }

  unfoldable pub judge_cpu : String → Moment → F → F → Progress F → Progress F
  unfolding reading follow_threshold
  judge_cpu id m usage limit p =
      let s = follow_threshold limit p.state in
      let level : Level = record {
        active = s.cpu;
        since = s.cpu_high_since;
        last_alert = s.cpu_last_alert;
      } in
      after_cpu
        (sustained_threshold (retry_key id cpu_kind) m.now (unix m.now) (m.send cpu_kind)
          (reading usage limit) level p.work.table)
        (record p { state = s })

  abbrev pub limit_of : Option (AlertProfile F) → Option F
  limit_of none = none
  limit_of (some pr) = pr.cpu_threshold

  unfoldable pub check_cpu : String → Moment → F → Option F → Progress F → Progress F
  check_cpu id m usage none p = clear_cpu p
  check_cpu id m usage (some limit) p = judge_cpu id m usage limit p

  unfoldable pub check_memory : String → Moment → AlertReport F → Progress F → Progress F
  unfolding reading
  check_memory id m report p =
      let level : Level = record {
        active = p.state.memory;
        since = p.state.memory_high_since;
        last_alert = p.state.memory_last_alert;
      } in
      if ltb 0 report.ram_total
      then after_memory
          (sustained_threshold (retry_key id memory_kind) m.now (unix m.now) (m.send memory_kind)
            (reading (fl.percent report.ram_used report.ram_total) fl.memory_level) level
            p.work.table)
          p
      else record p { state = record p.state { memory_high_since = 0 } }

  -- `if node.Online && node.LastReport != nil`
  unfoldable pub check_resources :
      AlertNode F → Moment → Option (AlertReport F) → Progress F → Progress F
  check_resources node m none p = p
  check_resources node m (some report) p =
      if node.online
      then check_memory node.id m report
          (check_cpu node.id m report.cpu_usage (limit_of node.profile) p)
      else p

  -- `trafficWarning`, with the cycle's text
  unfoldable pub warning_due : AlertNode F → AlertProfile F → String → AlertState F → Bool
  warning_due node pr cycle state =
      not (fl.at_most pr.traffic_warning_percent fl.zero_level)
      && not (node.traffic_limit == 0)
      && ltb node.cycle_total_used node.traffic_limit
      && not
          (fl.less (fl.percent node.cycle_total_used node.traffic_limit) pr.traffic_warning_percent)
      && not (str_eq state.traffic_warning_cycle cycle)

  unfoldable pub check_warning :
      AlertNode F → Moment → Option (AlertProfile F) → Progress F → Progress F
  check_warning node m none p = p
  check_warning node m (some pr) p =
      let cycle = m.cycle_text node.cycle_start in
      if warning_due node pr cycle p.state
      then deliver_then node.id m warning_kind (mark_warning cycle) p
      else p

-- `daysUntilDue`: a duration holds 106751 whole days.
unfoldable pub days_until_due : ℕ → Option ℕ → Option ℤ
days_until_due today none = none
days_until_due today (some date) =
    some (sub_ℕ (min 106751 (date - today)) (min 106751 (today - date)))

-- `ok && days >= 0 && days <= cfg.TelegramReminderDays`
unfoldable pub within_reminder : ℕ → Option ℤ → Bool
within_reminder reminder_days none = false
within_reminder reminder_days (some days) =
    not (ltb_ℤ days (pos 0)) && not (ltb_ℤ (pos reminder_days) days)

module _ {F : Type 0} where
  unfoldable pub reminder_due : AlertConfig → AlertProfile F → Moment → AlertState F → Bool
  unfolding days_until_due within_reminder
  reminder_due cfg pr m state =
      ltb 0 cfg.reminder_days
      && not (str_eq pr.due_date "")
      && leb cfg.reminder_hour m.hour
      && within_reminder cfg.reminder_days (days_until_due m.day_number (m.parse_day pr.due_date))
      && not (str_eq state.reminder_date m.today && str_eq state.reminder_for pr.due_date)

  unfoldable pub check_due :
      String → AlertConfig → Moment → Option (AlertProfile F) → Progress F → Progress F
  unfolding reminder_due
  check_due id cfg m none p = p
  check_due id cfg m (some pr) p =
      if reminder_due cfg pr m p.state
      then deliver_then id m due_kind (mark_due m.today pr.due_date) p
      else p

-- The body of the loop of `check` from `state.Seen = true` to the last message.
unfoldable pub check_node :
    {F : Type 0} → Floats F → AlertConfig → AlertNode F → Moment → Progress F → Progress F
check_node fl cfg node m p = check_due node.id cfg m node.profile (
    check_traffic node m (
      check_warning fl node m node.profile (
        clear_high node (
          check_resources fl node m node.last_report (
            check_ping cfg node m (
              check_offline cfg node m
                (record p { state = record p.state { seen = true; online = node.online } })))))))
