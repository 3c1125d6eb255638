-- ===== src/Alerts/CheckLaws.antt =====
-- What each step of a check of internal/server/telegram.go leaves of the announcements of the
-- others.
use vibemonitor.Prelude.{
  ◌≡◌, refl, ap, ◌∙◌, Bool, true, false, ◌&&◌, List, ◌∷◌, String, Option, none, some, inl, inr, ◌⊎◌,
  Bool-cases, &&-true,
}
use vibemonitor.Alerts.State.{
  Floats, Kind, AlertState, AlertConfig, AlertProfile, AlertNode, Moment, Progress, deliver_then,
}
use vibemonitor.Alerts.State.Kind.{offline_kind, recovery_kind, warning_kind, due_kind}
use vibemonitor.Alerts.StateLaws.{deliver_then-cases}
use vibemonitor.Alerts.Announced.{
  Announced, announced_of, announced, announced-check_ping, announced-check_resources,
  announced-clear_high, announced-check_traffic,
}
use vibemonitor.Alerts.PingCheck.{check_ping}
use vibemonitor.Alerts.Check.{
  mark_offline, mark_warning, mark_due, offline_due, check_offline, warning_due, check_warning,
  reminder_due, check_due, check_node, check_resources, check_traffic, clear_high,
}

module _ {F : Type 0} where
  -- A part of what is announced that a message of the kind and its mark leave.
  deliver_kept :
      {X : Type 0} (f : Announced → X) (id : String) (m : Moment) (k : Kind)
      (mark : AlertState F → AlertState F) (p : Progress F)
      → f (announced_of (mark p.state) (k ∷ p.work.delivered)) ≡ f (announced p)
      → f (announced (deliver_then id m k mark p)) ≡ f (announced p)
  deliver_kept f id m k mark p same = elim (deliver_then-cases id m k mark p) [
    | inl (log, state) ↦ rw (log, state) same
    | inr (log, state) ↦ rw (log, state) refl
  ]

abbrev pub outages_of : Announced → Bool × List Kind
outages_of a = (a.offline, a.outages)

abbrev pub warnings_of : Announced → String × List Kind
warnings_of a = (a.cycle, a.warnings)

abbrev pub reminders_of : Announced → (String × String) × List Kind
reminders_of a = ((a.reminder_date, a.reminder_for), a.reminders)

module _ {F : Type 0} where
  pub check_offline-cases :
      (cfg : AlertConfig) (node : AlertNode F) (m : Moment) (p : Progress F)
      → ((offline_due cfg node m p.state ≡ true)
          × (check_offline cfg node m p
              ≡ deliver_then node.id m offline_kind (mark_offline true) p))
        ⊎ (((p.state.offline_alerted ≡ true)
              × (node.online ≡ true)
              × (check_offline cfg node m p
                  ≡ deliver_then node.id m recovery_kind (mark_offline false) p))
            ⊎ (check_offline cfg node m p ≡ p))
  unfolding check_offline
  check_offline-cases cfg node m p = elim (Bool-cases (offline_due cfg node m p.state)) [
    | inl due ↦ inl (due, rw due refl)
    | inr calm ↦ elim (Bool-cases (node.online && p.state.offline_alerted)) [
      | inl back ↦ inr (inl ((&&-true _ _ back).1, (&&-true _ _ back).0, rw (calm, back) refl))
      | inr same ↦ inr (inr (rw (calm, same) refl))
    ]
  ]

  pub check_due-cases :
      (id : String) (cfg : AlertConfig) (m : Moment) (profile : Option (AlertProfile F))
      (p : Progress F)
      → ((pr : AlertProfile F) × (profile ≡ some pr)
          × (reminder_due cfg pr m p.state ≡ true)
          × (check_due id cfg m profile p
              ≡ deliver_then id m due_kind (mark_due m.today pr.due_date) p))
        ⊎ (check_due id cfg m profile p ≡ p)
  unfolding check_due
  check_due-cases id cfg m none p = inr refl
  check_due-cases id cfg m (some pr) p = elim (Bool-cases (reminder_due cfg pr m p.state)) [
    | inl due ↦ inl (pr, refl, due, rw due refl)
    | inr calm ↦ inr (rw calm refl)
  ]

  pub check_warning-cases :
      (fl : Floats F) (node : AlertNode F) (m : Moment) (profile : Option (AlertProfile F))
      (p : Progress F)
      → ((pr : AlertProfile F) × (profile ≡ some pr)
          × (warning_due fl node pr (m.cycle_text node.cycle_start) p.state ≡ true)
          × (check_warning fl node m profile p
              ≡ deliver_then node.id m warning_kind
                  (mark_warning (m.cycle_text node.cycle_start))
                  p))
        ⊎ (check_warning fl node m profile p ≡ p)
  unfolding check_warning
  check_warning-cases fl node m none p = inr refl
  check_warning-cases fl node m (some pr) p =
      elim (Bool-cases (warning_due fl node pr (m.cycle_text node.cycle_start) p.state)) [
        | inl due ↦ inl (pr, refl, due, rw due refl)
        | inr calm ↦ inr (rw calm refl)
      ]

  offline_kept :
      {X : Type 0} (f : Announced → X) (cfg : AlertConfig) (node : AlertNode F) (m : Moment)
      (p : Progress F)
      → f (announced_of (mark_offline true p.state) (offline_kind ∷ p.work.delivered))
        ≡ f (announced p)
      → f (announced_of (mark_offline false p.state) (recovery_kind ∷ p.work.delivered))
        ≡ f (announced p)
      → f (announced (check_offline cfg node m p)) ≡ f (announced p)
  offline_kept f cfg node m p down back = elim (check_offline-cases cfg node m p) [
    | inl (due, e) ↦
        ap (λ q. f (announced q)) e
        ∙ deliver_kept f node.id m offline_kind (mark_offline true) p down
    | inr (inl (was, online, e)) ↦
        ap (λ q. f (announced q)) e
        ∙ deliver_kept f node.id m recovery_kind (mark_offline false) p back
    | inr (inr e) ↦ ap (λ q. f (announced q)) e
  ]

  due_kept :
      {X : Type 0} (f : Announced → X) (id : String) (cfg : AlertConfig) (m : Moment)
      (profile : Option (AlertProfile F)) (p : Progress F)
      → ((due : String)
          → f (announced_of (mark_due m.today due p.state) (due_kind ∷ p.work.delivered))
            ≡ f (announced p))
      → f (announced (check_due id cfg m profile p)) ≡ f (announced p)
  due_kept f id cfg m profile p same = elim (check_due-cases id cfg m profile p) [
    | inl (pr, some_pr, due, e) ↦
        ap (λ q. f (announced q)) e
        ∙ deliver_kept f id m due_kind (mark_due m.today pr.due_date) p (same pr.due_date)
    | inr e ↦ ap (λ q. f (announced q)) e
  ]

  warning_kept :
      {X : Type 0} (f : Announced → X) (fl : Floats F) (node : AlertNode F) (m : Moment)
      (profile : Option (AlertProfile F)) (p : Progress F)
      → ((cycle : String)
          → f (announced_of (mark_warning cycle p.state) (warning_kind ∷ p.work.delivered))
            ≡ f (announced p))
      → f (announced (check_warning fl node m profile p)) ≡ f (announced p)
  warning_kept f fl node m profile p same = elim (check_warning-cases fl node m profile p) [
    | inl (pr, some_pr, due, e) ↦
        ap (λ q. f (announced q)) e
        ∙ deliver_kept f node.id m warning_kind (mark_warning (m.cycle_text node.cycle_start)) p
            (same _)
    | inr e ↦ ap (λ q. f (announced q)) e
  ]

-- Where the parts of a check stand.
module _ {F : Type 0} (fl : Floats F) (cfg : AlertConfig) (node : AlertNode F) (m : Moment) where
  abbrev pub started : Progress F → Progress F
  started p = record p { state = record p.state { seen = true; online = node.online } }

  abbrev pub measured : Progress F → Progress F
  measured p =
      clear_high node (check_resources fl node m node.last_report (check_ping cfg node m p))

  abbrev pub warned : Progress F → Progress F
  warned p = check_warning fl node m node.profile (measured (check_offline cfg node m (started p)))

  announced-measured : (p : Progress F) → announced (measured p) ≡ announced p
  announced-measured p =
      announced-clear_high node _
      ∙ announced-check_resources fl node m node.last_report _
      ∙ announced-check_ping cfg node m p

  pub announced-started : (p : Progress F) → announced (started p) ≡ announced p
  unfolding announced_of
  announced-started p = refl

module _ {F : Type 0} (s : AlertState F) (log : List Kind) where
  due_outages :
      (today due : String)
      → outages_of (announced_of (mark_due today due s) (due_kind ∷ log))
        ≡ outages_of (announced_of s log)
  unfolding announced_of mark_due
  due_outages today due = refl

  due_warnings :
      (today due : String)
      → warnings_of (announced_of (mark_due today due s) (due_kind ∷ log))
        ≡ warnings_of (announced_of s log)
  unfolding announced_of mark_due
  due_warnings today due = refl

  warning_outages :
      (cycle : String)
      → outages_of (announced_of (mark_warning cycle s) (warning_kind ∷ log))
        ≡ outages_of (announced_of s log)
  unfolding announced_of mark_warning
  warning_outages cycle = refl

  warning_reminders :
      (cycle : String)
      → reminders_of (announced_of (mark_warning cycle s) (warning_kind ∷ log))
        ≡ reminders_of (announced_of s log)
  unfolding announced_of mark_warning
  warning_reminders cycle = refl

  down_warnings :
      warnings_of (announced_of (mark_offline true s) (offline_kind ∷ log))
      ≡ warnings_of (announced_of s log)
  unfolding announced_of mark_offline
  down_warnings = refl

  back_warnings :
      warnings_of (announced_of (mark_offline false s) (recovery_kind ∷ log))
      ≡ warnings_of (announced_of s log)
  unfolding announced_of mark_offline
  back_warnings = refl

  down_reminders :
      reminders_of (announced_of (mark_offline true s) (offline_kind ∷ log))
      ≡ reminders_of (announced_of s log)
  unfolding announced_of mark_offline
  down_reminders = refl

  back_reminders :
      reminders_of (announced_of (mark_offline false s) (recovery_kind ∷ log))
      ≡ reminders_of (announced_of s log)
  unfolding announced_of mark_offline
  back_reminders = refl

module _ {F : Type 0} (fl : Floats F) (cfg : AlertConfig) (node : AlertNode F) (m : Moment) where
  -- Only `check_offline` announces outages, `check_warning` traffic, and `check_due` due dates.
  pub outages-check_node :
      (p : Progress F)
      → outages_of (announced (check_node fl cfg node m p))
        ≡ outages_of (announced (check_offline cfg node m (started fl cfg node m p)))
  unfolding check_node
  outages-check_node p =
      due_kept outages_of node.id cfg m node.profile _ (due_outages _ _ m.today)
      ∙ ap outages_of (announced-check_traffic node m (warned fl cfg node m p))
      ∙ warning_kept outages_of fl node m node.profile _ (warning_outages _ _)
      ∙ ap outages_of (announced-measured fl cfg node m _)

  pub warnings-check_node :
      (p : Progress F)
      → warnings_of (announced (check_node fl cfg node m p))
        ≡ warnings_of (announced (warned fl cfg node m p))
  unfolding check_node
  warnings-check_node p =
      due_kept warnings_of node.id cfg m node.profile _ (due_warnings _ _ m.today)
      ∙ ap warnings_of (announced-check_traffic node m (warned fl cfg node m p))

  pub warnings-measured :
      (p : Progress F)
      → warnings_of
          (announced (measured fl cfg node m (check_offline cfg node m (started fl cfg node m p))))
        ≡ warnings_of (announced p)
  warnings-measured p =
      ap warnings_of (announced-measured fl cfg node m _)
      ∙ offline_kept warnings_of cfg node m _ (down_warnings _ _) (back_warnings _ _)
      ∙ ap warnings_of (announced-started fl cfg node m p)

  pub reminders-check_traffic :
      (p : Progress F)
      → reminders_of (announced (check_traffic node m (warned fl cfg node m p)))
        ≡ reminders_of (announced p)
  reminders-check_traffic p =
      ap reminders_of (announced-check_traffic node m (warned fl cfg node m p))
      ∙ warning_kept reminders_of fl node m node.profile _ (warning_reminders _ _)
      ∙ ap reminders_of (announced-measured fl cfg node m _)
      ∙ offline_kept reminders_of cfg node m _ (down_reminders _ _) (back_reminders _ _)
      ∙ ap reminders_of (announced-started fl cfg node m p)
