-- ===== src/Alerts/Once.antt =====
-- The announcements that the checks of a node (internal/server/telegram.go) make once: the warning of
-- a billing cycle's traffic, and the reminder of a due date on a day.
use vibemonitor.Prelude.{
  ◌≡◌, ◌≢◌, refl, sym, ap, ◌∙◌, true, List, [], ◌∷◌, String, some, arith, inl, inr, ◌⊎◌, All,
}
use mathlib.Core.Path.{subst}
use text.Mathlib.TextEquality.{eq_iff}
use vibemonitor.Alerts.State.{
  Floats, Kind, AlertState, AlertConfig, AlertProfile, AlertNode, Moment, Progress,
}
use vibemonitor.Alerts.State.Kind.{warning_kind, due_kind}
use vibemonitor.Alerts.StateLaws.{deliver_then-cases}
use vibemonitor.Alerts.Announced.{announced_of, announced}
use vibemonitor.Alerts.Check.{
  warning_due, check_warning, reminder_due, check_due, check_node, mark_warning, mark_due,
}
use vibemonitor.Alerts.CheckLaws.{
  warnings_of, reminders_of, check_warning-cases, check_due-cases, warnings-check_node,
  warnings-measured, reminders-check_traffic,
}
use vibemonitor.Alerts.Outages.{Round, rounds}

-- No warning beyond those of the list, or one, that the state has marked with the cycle.
abbrev OneWarning : String → List Kind → String × List Kind → Type 0
OneWarning cycle before (marked, log) =
    (log ≡ before) ⊎ ((log ≡ warning_kind ∷ before) × (marked ≡ cycle))

abbrev InCycle : {F : Type 0} → String → Round F → Type 0
InCycle cycle r = r.moment.cycle_text r.node.cycle_start ≡ cycle

module _ {F : Type 0} (fl : Floats F) where
  warning_due-new :
      (node : AlertNode F) (pr : AlertProfile F) (cycle : String) (s : AlertState F)
      → warning_due fl node pr cycle s ≡ true
      → s.traffic_warning_cycle ≢ cycle
  unfolding warning_due
  warning_due-new node pr cycle s h e =
      ground (arith, h, (eq_iff s.traffic_warning_cycle cycle).1 e)

  check_warning-OneWarning :
      (node : AlertNode F) (m : Moment) (before : List Kind) (p : Progress F)
      → OneWarning (m.cycle_text node.cycle_start) before (warnings_of (announced p))
      → OneWarning
          (m.cycle_text node.cycle_start)
          before
          (warnings_of (announced (check_warning fl node m node.profile p)))
  unfolding announced_of mark_warning
  check_warning-OneWarning node m before p h = elim (check_warning-cases fl node m node.profile p) [
    | inr e ↦ rw e h
    | inl (pr, found, due, e) ↦
        elim (deliver_then-cases node.id m warning_kind
          (mark_warning (m.cycle_text node.cycle_start)) p) [
            | inr (log, state) ↦ rw (e, log, state) h
            | inl (log, state) ↦ elim h [
              | inl none_yet ↦ inr (rw (e, log, state) (ap (λ l. warning_kind ∷ l) none_yet, refl))
              | inr (one, marked) ↦
                  absurd
                    (warning_due-new node pr (m.cycle_text node.cycle_start) p.state due marked)
            ]
          ]
  ]

  check_node-OneWarning :
      (cfg : AlertConfig) (node : AlertNode F) (m : Moment) (before : List Kind) (p : Progress F)
      → OneWarning (m.cycle_text node.cycle_start) before (warnings_of (announced p))
      → OneWarning
          (m.cycle_text node.cycle_start)
          before
          (warnings_of (announced (check_node fl cfg node m p)))
  check_node-OneWarning cfg node m before p h =
      subst (OneWarning (m.cycle_text node.cycle_start) before)
        (sym (warnings-check_node fl cfg node m p))
        (check_warning-OneWarning node m before _ (
          subst (OneWarning (m.cycle_text node.cycle_start) before)
            (sym (warnings-measured fl cfg node m p)) h))

  rounds-OneWarning :
      (cycle : String) (before : List Kind) (rs : List (Round F)) (p : Progress F)
      → All (InCycle cycle) rs
      → OneWarning cycle before (warnings_of (announced p))
      → OneWarning cycle before (warnings_of (announced (rounds fl rs p)))
  unfolding rounds
  rounds-OneWarning cycle before [] p same h = h
  rounds-OneWarning cycle before (r ∷ rs) p same h = rounds-OneWarning cycle before rs _ same.1 (
      subst
        (λ c. OneWarning c before (warnings_of (announced (check_node fl r.cfg r.node r.moment p))))
        same.0
        (check_node-OneWarning r.cfg r.node r.moment before p
          (subst (λ c. OneWarning c before (warnings_of (announced p))) (sym same.0) h)))

  -- Checks of a node in one billing cycle deliver the warning of its traffic below the quota at most
  -- once, whatever its profile and its traffic are, as long as the node's alert state is kept. The alert at
  -- the quota is another, and not counted.
  pub warned_once :
      (cycle : String) (rs : List (Round F)) (p : Progress F)
      → All (InCycle cycle) rs
      → ((announced (rounds fl rs p)).warnings ≡ (announced p).warnings)
        ⊎ ((announced (rounds fl rs p)).warnings ≡ warning_kind ∷ (announced p).warnings)
  warned_once cycle rs p same =
      elim (rounds-OneWarning cycle (announced p).warnings rs p same (inl refl)) [
        | inl e ↦ inl e
        | inr (e, marked) ↦ inr e
      ]

-- No reminder beyond those of the list, or one, that the state has marked with the day and the date.
abbrev OneReminder : String → String → List Kind → (String × String) × List Kind → Type 0
OneReminder today due before ((on, of), log) =
    (log ≡ before) ⊎ ((log ≡ due_kind ∷ before) × (on ≡ today) × (of ≡ due))

abbrev OnDay : {F : Type 0} → String → String → Round F → Type 0
OnDay today due r =
    (r.moment.today ≡ today)
    × ((pr : AlertProfile _) → r.node.profile ≡ some pr → pr.due_date ≡ due)

module _ {F : Type 0} (fl : Floats F) where
  reminder_due-new :
      (cfg : AlertConfig) (pr : AlertProfile F) (m : Moment) (s : AlertState F)
      → reminder_due cfg pr m s ≡ true
      → s.reminder_date ≡ m.today
      → s.reminder_for ≢ pr.due_date
  unfolding reminder_due
  reminder_due-new cfg pr m s h e e' =
      ground
        (arith, h, (eq_iff s.reminder_date m.today).1 e, (eq_iff s.reminder_for pr.due_date).1 e')

  check_due-OneReminder :
      (cfg : AlertConfig) (node : AlertNode F) (m : Moment) (due : String) (before : List Kind)
      (p : Progress F)
      → ((pr : AlertProfile F) → node.profile ≡ some pr → pr.due_date ≡ due)
      → OneReminder m.today due before (reminders_of (announced p))
      → OneReminder m.today due before
          (reminders_of (announced (check_due node.id cfg m node.profile p)))
  unfolding announced_of mark_due
  check_due-OneReminder cfg node m due before p date h =
      elim (check_due-cases node.id cfg m node.profile p) [
        | inr e ↦ rw e h
        | inl (pr, found, fresh, e) ↦
            elim (deliver_then-cases node.id m due_kind (mark_due m.today pr.due_date) p) [
              | inr (log, state) ↦ rw (e, log, state) h
              | inl (log, state) ↦ elim h [
                | inl none_yet ↦
                    inr (rw (e, log, state) (ap (λ l. due_kind ∷ l) none_yet, refl, date pr found))
                | inr (one, on, of) ↦
                    absurd (reminder_due-new cfg pr m p.state fresh on (of ∙ sym (date pr found)))
              ]
            ]
      ]

  check_node-OneReminder :
      (cfg : AlertConfig) (node : AlertNode F) (m : Moment) (due : String) (before : List Kind)
      (p : Progress F)
      → ((pr : AlertProfile F) → node.profile ≡ some pr → pr.due_date ≡ due)
      → OneReminder m.today due before (reminders_of (announced p))
      → OneReminder m.today due before (reminders_of (announced (check_node fl cfg node m p)))
  unfolding check_node
  check_node-OneReminder cfg node m due before p date h =
      check_due-OneReminder cfg node m due before _ date
        (subst (OneReminder m.today due before) (sym (reminders-check_traffic fl cfg node m p)) h)

  rounds-OneReminder :
      (today due : String) (before : List Kind) (rs : List (Round F)) (p : Progress F)
      → All (OnDay today due) rs
      → OneReminder today due before (reminders_of (announced p))
      → OneReminder today due before (reminders_of (announced (rounds fl rs p)))
  unfolding rounds
  rounds-OneReminder today due before [] p same h = h
  rounds-OneReminder today due before (r ∷ rs) p same h =
      rounds-OneReminder today due before rs _ same.1 (
        subst
          (λ d.
            OneReminder d due before
              (reminders_of (announced (check_node fl r.cfg r.node r.moment p))))
          same.0.0
          (check_node-OneReminder r.cfg r.node r.moment due before p same.0.1
            (subst (λ d. OneReminder d due before (reminders_of (announced p))) (sym same.0.0) h)))

  -- Checks on one day, with one due date, remind of it at most once.
  reminded_once :
      (today due : String) (rs : List (Round F)) (p : Progress F)
      → All (OnDay today due) rs
      → ((announced (rounds fl rs p)).reminders ≡ (announced p).reminders)
        ⊎ ((announced (rounds fl rs p)).reminders ≡ due_kind ∷ (announced p).reminders)
  reminded_once today due rs p same =
      elim (rounds-OneReminder today due (announced p).reminders rs p same (inl refl)) [
        | inl e ↦ inl e
        | inr (e, on, of) ↦ inr e
      ]
