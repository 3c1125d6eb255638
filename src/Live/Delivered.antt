-- ===== src/Live/Delivered.antt =====
-- What a forced broadcast of internal/server/ws_hub.go leaves in the queues, and how old a
-- payload is that a client gets on request.
use mathlib.Core.Path.{subst}
use vibemonitor.Prelude.{
  ℕ, ◌+◌, ◌<◌, ◌≡◌, refl, sym, ap, ◌∙◌, ◌⊎◌, inl, inr, Bool, true, false, List, [], ◌∷◌, String,
  Option, none, some, if◌then◌else◌, arith, Bool-cases, some-injective, All, any,
}
use vibemonitor.Prelude.Clock.{sub_lt}
use vibemonitor.Live.Pace.{min_update_interval}
use vibemonitor.Live.Hub.{
  Client, Snapshot, Hub, view_of, send, is_recent, rebuilt, served, snapshot_payload, views,
  send_to_view, publish, broadcast_view, do_broadcast_nodes, clear_caches, force_broadcast_nodes,
}
use vibemonitor.Live.HubLaws.{newest, newest-push_latest, set_view-clients}

send_to_view_none :
    (compact : Bool) (p : String) (cs : List Client)
    → any (views compact) cs ≡ false
    → send_to_view compact p cs ≡ cs
unfolding send_to_view
send_to_view_none compact p [] h = refl
send_to_view_none compact p (c ∷ cs) h = ground (arith, h, send_to_view_none compact p cs)

publish_forced :
    (compact : Bool) (h : Hub) (p : String)
    → (publish compact true (h, some p)).clients ≡ send_to_view compact p h.clients
unfolding publish
publish_forced compact h p = refl

snapshot_refreshed :
    (compact : Bool) (now : ℕ) (p : String) (h : Hub)
    → snapshot_payload compact true now (some p) h ≡ rebuilt compact now (some p) h
unfolding snapshot_payload served
snapshot_refreshed compact now p h = refl

broadcast_forced :
    (compact : Bool) (now : ℕ) (p : String) (h : Hub)
    → (broadcast_view compact true now (some p) h).clients ≡ send_to_view compact p h.clients
unfolding broadcast_view rebuilt
broadcast_forced compact now p h = elim (Bool-cases (any (views compact) h.clients)) [
  | inl found ↦ rw found (
      ap (λ r. (publish compact true r).clients) (snapshot_refreshed compact now p h)
      ∙ publish_forced compact (rebuilt compact now (some p) h).0 p
      ∙ ap (send_to_view compact p) (set_view-clients compact _ h))
  | inr nobody ↦ rw nobody (sym (send_to_view_none compact p h.clients nobody))
]

-- The payload of a client's view.
abbrev pub own : String → String → Client → String
own full compact c = if c.compact then compact else full

Delivered : String → String → Client → Type 0
Delivered full compact c = newest c.queue ≡ some (own full compact c)

both :
    (full compact : String) (c : Client)
    → Delivered full compact (
        if views true (if views false c then send full c else c)
        then send compact (if views false c then send full c else c)
        else (if views false c then send full c else c))
unfolding Delivered send views
both full compact c =
    ground (arith, newest-push_latest full c.queue, newest-push_latest compact c.queue)

sent_newest :
    (full compact : String) (cs : List Client)
    → All (Delivered full compact) (send_to_view true compact (send_to_view false full cs))
unfolding send_to_view
sent_newest full compact [] = tt
sent_newest full compact (c ∷ cs) = (both full compact c, sent_newest full compact cs)

-- After a forced broadcast whose payloads could be built, the newest payload that waits for each
-- client is that of its view, even if its queue was full or the payload was the last one sent.
pub force_broadcast_nodes_delivered :
    (now : ℕ) (full compact : String) (h : Hub)
    → All
        (λ c. newest c.queue ≡ some (own full compact c))
        (force_broadcast_nodes now (some full) (some compact) h).clients
unfolding force_broadcast_nodes do_broadcast_nodes clear_caches Delivered
force_broadcast_nodes_delivered now full compact h =
    subst (All (Delivered full compact))
      (sym (
        broadcast_forced true now compact _
        ∙ ap (send_to_view true compact) (broadcast_forced false now full (clear_caches h))))
      (sent_newest full compact h.clients)

-- A payload that a request gets is the one built for it, or one of the view's cache that is less
-- than a second old.
snapshot_payload_recent :
    (compact : Bool) (now : ℕ) (built : Option String) (h : Hub) (p : String)
    → (snapshot_payload compact false now built h).1 ≡ some p
    → (built ≡ some p)
      ⊎ ((s : Snapshot) × ((view_of compact h).cache ≡ some s)
          × (s.payload ≡ p)
          × (now < s.created_at + min_update_interval))
unfolding snapshot_payload
snapshot_payload_recent compact now built h p e = through (view_of compact h).cache refl e
  where
    building : (b : Option String) → (rebuilt compact now b h).1 ≡ some p → b ≡ some p
    building none e = absurd (unfold rebuilt in cc)
    building (some q) e = unfold rebuilt in e

    young_payload :
        (s : Snapshot)
        → sub_lt now s.created_at min_update_interval ≡ true
        → (served compact now built h (is_recent now (some s))).1 ≡ some p
        → s.payload ≡ p
    young_payload s young e = some-injective (unfold is_recent served in (rw young at e))

    old_payload :
        (s : Snapshot)
        → sub_lt now s.created_at min_update_interval ≡ false
        → (served compact now built h (is_recent now (some s))).1 ≡ some p
        → (rebuilt compact now built h).1 ≡ some p
    old_payload s old e = unfold is_recent served in (rw old at e)

    through :
        (o : Option Snapshot)
        → (view_of compact h).cache ≡ o
        → (served compact now built h (is_recent now o)).1 ≡ some p
        → (built ≡ some p)
          ⊎ ((s : Snapshot) × ((view_of compact h).cache ≡ some s)
              × (s.payload ≡ p)
              × (now < s.created_at + min_update_interval))
    through none held e = inl (building built e)
    through (some s) held e = elim (Bool-cases (sub_lt now s.created_at min_update_interval)) [
      | inl young ↦ inr (s, held, young_payload s young e, ground (arith, young))
      | inr old ↦ inl (building built (old_payload s old e))
    ]
