-- ===== src/Alerts/Outages.antt =====
-- When the checks of a node (internal/server/telegram.go) announce its outages.
use vibemonitor.Prelude.{
  ◌≤◌, ◌+◌, ◌*◌, ◌≡◌, ◌≢◌, refl, sym, ap, ◌∙◌, Bool, true, false, List, [], ◌∷◌, String, arith, inl,
  inr, no_longer,
}
use mathlib.Core.Path.{subst}
use vibemonitor.Prelude.Clock.{second}
use vibemonitor.Alerts.State.{
  Floats, Kind, AlertState, AlertConfig, AlertNode, Moment, Progress, deliver_then,
}
use vibemonitor.Alerts.State.Kind.{offline_kind, recovery_kind}
use vibemonitor.Alerts.StateLaws.{deliver_then-cases}
use vibemonitor.Alerts.Announced.{announced_of, announced, select, is_outage}
use vibemonitor.Alerts.Check.{offline_due, check_offline, check_node, mark_offline}
use vibemonitor.Alerts.CheckLaws.{
  outages_of, check_offline-cases, announced-started, started, outages-check_node,
}

-- Checks of one node, in their order.
pub record Round (F : Type 0) : Type 0 where
  pub cfg : AlertConfig
  pub node : AlertNode F
  pub moment : Moment

unfoldable pub rounds : {F : Type 0} → Floats F → List (Round F) → Progress F → Progress F
rounds fl [] p = p
rounds fl (r ∷ rs) p = rounds fl rs (check_node fl r.cfg r.node r.moment p)

-- Messages of outages, the newest first: they tell of an outage and of its end in turns. The last
-- word is an outage if the node counts as offline; else it is the end of one, or there is none.
abbrev pub InTurns : Bool → List Kind → Type 0
InTurns offline [] = offline ≡ false
InTurns offline (k ∷ log) = elim k [
  | offline_kind ↦ (offline ≡ true) × InTurns false log
  | recovery_kind ↦ (offline ≡ false) × InTurns true log
  | _ ↦ InTurns offline log
]

abbrev pub Consistent : {F : Type 0} → Progress F → Type 0
Consistent p = InTurns (outages_of (announced p)).0 (outages_of (announced p)).1

module _ {F : Type 0} where
  offline_due-overdue :
      (cfg : AlertConfig) (node : AlertNode F) (m : Moment) (s : AlertState F)
      → offline_due cfg node m s ≡ true
      → (node.online ≡ false)
        × (s.offline_alerted ≡ false)
        × (node.last_seen ≢ 0)
        × (node.last_seen + cfg.offline_delay_seconds * second ≤ m.now)
  unfolding offline_due
  offline_due-overdue cfg node m s h = ground (arith, h)

  announce-Consistent :
      (id : String) (m : Moment) (p : Progress F)
      → p.state.offline_alerted ≡ false
      → Consistent p
      → Consistent (deliver_then id m offline_kind (mark_offline true) p)
  unfolding announced_of mark_offline
  announce-Consistent id m p calm h =
      elim (deliver_then-cases id m offline_kind (mark_offline true) p) [
        | inl (log, state) ↦ rw (log, state) (refl, rw calm at h)
        | inr (log, state) ↦ rw (log, state) h
      ]

  recover-Consistent :
      (id : String) (m : Moment) (p : Progress F)
      → p.state.offline_alerted ≡ true
      → Consistent p
      → Consistent (deliver_then id m recovery_kind (mark_offline false) p)
  unfolding announced_of mark_offline
  recover-Consistent id m p down h =
      elim (deliver_then-cases id m recovery_kind (mark_offline false) p) [
        | inl (log, state) ↦ rw (log, state) (refl, rw down at h)
        | inr (log, state) ↦ rw (log, state) h
      ]

  check_offline-Consistent :
      (cfg : AlertConfig) (node : AlertNode F) (m : Moment) (p : Progress F)
      → Consistent p
      → Consistent (check_offline cfg node m p)
  check_offline-Consistent cfg node m p h = elim (check_offline-cases cfg node m p) [
    | inl (due, e) ↦
        rw e (announce-Consistent node.id m p (offline_due-overdue cfg node m p.state due).1 h)
    | inr (inl (was, online, e)) ↦ rw e (recover-Consistent node.id m p was h)
    | inr (inr e) ↦ rw e h
  ]

-- Whatever the nodes, the moments and the sender's answers, checks keep the announcements of outages
-- and recoveries consistent with the state: the two take turns, and the state tells the last one.
pub rounds-Consistent :
    {F : Type 0} (fl : Floats F) (rs : List (Round F)) (p : Progress F)
    → Consistent p
    → Consistent (rounds fl rs p)
unfolding rounds
rounds-Consistent fl [] p h = h
rounds-Consistent fl (r ∷ rs) p h = rounds-Consistent fl rs _ (
    subst (λ o. InTurns o.0 o.1) (sym (outages-check_node fl r.cfg r.node r.moment p))
      (check_offline-Consistent r.cfg r.node r.moment _ (
        subst (λ a. InTurns a.offline a.outages)
          (sym (announced-started fl r.cfg r.node r.moment p)) h)))

recover_outages :
    {F : Type 0} (id : String) (m : Moment) (p : Progress F)
    → (announced (deliver_then id m recovery_kind (mark_offline false) p)).outages
      ≢ offline_kind ∷ (announced p).outages
unfolding announced_of
recover_outages id m p h = elim (deliver_then-cases id m recovery_kind (mark_offline false) p) [
  | inl (log, state) ↦ absurd (let e = ap (select is_outage) (sym log) ∙ h in cc)
  | inr (log, state) ↦ absurd (no_longer _ _ (ap (select is_outage) (sym log) ∙ h))
]

-- A check that announces an outage finds the node offline, last heard from the configured delay ago or
-- earlier, and not marked as announced already.
outage_overdue :
    {F : Type 0} (fl : Floats F) (cfg : AlertConfig) (node : AlertNode F) (m : Moment)
    (p : Progress F)
    → (announced (check_node fl cfg node m p)).outages ≡ offline_kind ∷ (announced p).outages
    → (node.online ≡ false)
      × (p.state.offline_alerted ≡ false)
      × (node.last_seen ≢ 0)
      × (node.last_seen + cfg.offline_delay_seconds * second ≤ m.now)
outage_overdue fl cfg node m p h =
    let same = ap (λ a. a.outages) (announced-started fl cfg node m p) in
    let h' =
      ap (λ o. o.1) (sym (outages-check_node fl cfg node m p))
      ∙ h
      ∙ ap (λ l. offline_kind ∷ l) (sym same) in
    elim (check_offline-cases cfg node m (started fl cfg node m p)) [
      | inl (due, e) ↦ offline_due-overdue cfg node m _ due
      | inr (inl (was, online, e)) ↦
          absurd (recover_outages node.id m _ (ap (λ q. (announced q).outages) (sym e) ∙ h'))
      | inr (inr e) ↦ absurd (no_longer _ _ (ap (λ q. (announced q).outages) (sym e) ∙ h'))
    ]
