-- ===== src/Live/HubLaws.antt =====
-- The bounds of the hub of internal/server/ws_hub.go, and what its clients receive.
use vibemonitor.Prelude.{
  ℕ, suc, ◌≤◌, ◌≡◌, refl, sym, ap, inl, inr, Bool, true, false, not, ◌&&◌, List, [], ◌∷◌, ◌++◌,
  String, Option, none, some, if◌then◌else◌, arith, Bool-cases, All, length, length-append,
  length-drop, drop, keep, length-keep-le, ltb, any, ◌==◌,
}
use mathlib.Core.Path.{subst}
use vibemonitor.Live.Hub.{
  Client, View, Hub, max_clients, queue_capacity, view_of, set_view, register_client, drop_client,
  close, push_latest, send, rebuilt, served, snapshot_payload, views, send_to_view, send_to_id,
  answer, send_nodes_to, publish, broadcast_view, do_broadcast_nodes, clear_caches, take_payload,
  Happening, joins, leaves, writes, shuts, asks, broadcasts, forces, happen, force_broadcast_nodes,
  same_payload,
}

abbrev pub Bounded : Client → Type 0
Bounded c = length c.queue ≤ queue_capacity

push_latest-bounded :
    (payload : String) (queue : List String)
    → length queue ≤ queue_capacity
    → length (push_latest payload queue) ≤ queue_capacity
unfolding push_latest
push_latest-bounded payload queue h = ground (
  arith,
  h,
  length-append queue (payload ∷ []),
  length-append (drop 1 queue) (payload ∷ []),
  length-drop 1 queue,
)

-- The newest payload of a queue.
abbrev pub newest : List String → Option String
newest [] = none
newest (p ∷ []) = some p
newest (p ∷ q ∷ ps) = newest (q ∷ ps)

newest-append : (ps : List String) (p : String) → newest (ps ++ (p ∷ [])) ≡ some p
newest-append [] p = refl
newest-append (q ∷ []) p = refl
newest-append (q ∷ r ∷ ps) p = newest-append (r ∷ ps) p

pub newest-push_latest :
    (payload : String) (queue : List String) → newest (push_latest payload queue) ≡ some payload
unfolding push_latest
newest-push_latest payload queue =
    newest-append (if ltb (length queue) queue_capacity then queue else drop 1 queue) payload

send_to_view-Bounded :
    (compact : Bool) (payload : String) (cs : List Client)
    → All Bounded cs
    → (length (send_to_view compact payload cs) ≡ length cs)
      × All Bounded (send_to_view compact payload cs)
unfolding send_to_view send
send_to_view-Bounded compact payload [] h = (refl, tt)
send_to_view-Bounded compact payload (c ∷ cs) h =
    let (same, rest) = send_to_view-Bounded compact payload cs h.1 in
    (ap suc same, (ground (arith, h.0, push_latest-bounded payload c.queue h.0), rest))

send_to_id-Bounded :
    (id : ℕ) (payload : String) (cs : List Client)
    → All Bounded cs
    → (length (send_to_id id payload cs) ≡ length cs) × All Bounded (send_to_id id payload cs)
unfolding send_to_id send
send_to_id-Bounded id payload [] h = (refl, tt)
send_to_id-Bounded id payload (c ∷ cs) h =
    let (same, rest) = send_to_id-Bounded id payload cs h.1 in
    (ap suc same, (ground (arith, h.0, push_latest-bounded payload c.queue h.0), rest))

pub set_view-clients :
    (compact : Bool) (v : View) (h : Hub) → (set_view compact v h).clients ≡ h.clients
unfolding set_view
set_view-clients true v h = refl
set_view-clients false v h = refl

-- A payload changes no client.
snapshot_payload-clients :
    (compact refresh : Bool) (now : ℕ) (built : Option String) (h : Hub)
    → (snapshot_payload compact refresh now built h).0.clients ≡ h.clients
unfolding snapshot_payload
snapshot_payload-clients compact refresh now built h = through _
  where
    rebuild : (b : Option String) → (rebuilt compact now b h).0.clients ≡ h.clients
    rebuild none = unfold rebuilt in refl
    rebuild (some p) = unfold rebuilt in set_view-clients compact _ h

    through : (o : Option String) → (served compact now built h o).0.clients ≡ h.clients
    through none = unfold served in rebuild built
    through (some p) = unfold served in refl

-- Clients that are as many, each with a bounded queue.
abbrev pub Fits : List Client → Type 0
Fits cs = (length cs ≤ max_clients) × All Bounded cs

take_payload-Bounded :
    (id : ℕ) (cs : List Client)
    → All Bounded cs
    → (length (take_payload id cs) ≡ length cs) × All Bounded (take_payload id cs)
unfolding take_payload
take_payload-Bounded id [] h = (refl, tt)
take_payload-Bounded id (c ∷ cs) h =
    let (same, rest) = take_payload-Bounded id cs h.1 in
    (ap suc same, (ground (arith, h.0, length-drop 1 c.queue), rest))

keep-Bounded : (p : Client → Bool) (cs : List Client) → All Bounded cs → All Bounded (keep p cs)
keep-Bounded p [] h = tt
keep-Bounded p (c ∷ cs) h = elim (Bool-cases (p c)) [
  | inl kept ↦ rw kept (h.0, keep-Bounded p cs h.1)
  | inr dropped ↦ rw dropped (keep-Bounded p cs h.1)
]

answer-Fits : (id : ℕ) (r : Hub × Option String) → Fits r.0.clients → Fits (answer id r).clients
unfolding answer
answer-Fits id (h, none) fits = fits
answer-Fits id (h, some payload) fits =
    let (same, bounded) = send_to_id-Bounded id payload h.clients fits.1 in
    (omega (arith, same, fits.0), bounded)

publish-Fits :
    (compact force : Bool) (r : Hub × Option String)
    → Fits r.0.clients
    → Fits (publish compact force r).clients
unfolding publish
publish-Fits compact force (h, none) fits = fits
publish-Fits compact force (h, some payload) fits =
    elim (Bool-cases (not force && same_payload (view_of compact h).last_payload payload)) [
      | inl duplicate ↦ rw duplicate fits
      | inr new ↦ rw new (
          let (same, bounded) = send_to_view-Bounded compact payload h.clients fits.1 in
          (omega (arith, same, fits.0), bounded))
    ]

broadcast_view-Fits :
    (compact force : Bool) (now : ℕ) (built : Option String) (h : Hub)
    → Fits h.clients
    → Fits (broadcast_view compact force now built h).clients
unfolding broadcast_view
broadcast_view-Fits compact force now built h fits =
    elim (Bool-cases (any (views compact) h.clients)) [
      | inl some_view ↦ rw some_view (
          publish-Fits compact force (snapshot_payload compact true now built h)
            (sub_clients (snapshot_payload-clients compact true now built h)))
      | inr no_view ↦ rw no_view fits
    ]
  where
    sub_clients : {cs : List Client} → cs ≡ h.clients → Fits cs
    sub_clients e = subst Fits (sym e) fits

do_broadcast_nodes-Fits :
    (force : Bool) (now : ℕ) (full compact : Option String) (h : Hub)
    → Fits h.clients
    → Fits (do_broadcast_nodes force now full compact h).clients
unfolding do_broadcast_nodes
do_broadcast_nodes-Fits force now full compact h fits =
    broadcast_view-Fits true force now compact _ (broadcast_view-Fits false force now full h fits)

-- Whatever happens to a hub of at most 1000 clients with at most four waiting payloads each, it stays
-- within these bounds.
happen-Fits : (e : Happening) (h : Hub) → Fits h.clients → Fits (happen e h).clients
unfolding happen register_client drop_client close send_nodes_to force_broadcast_nodes clear_caches
happen-Fits (joins id compact) h fits = ground (arith, fits)
happen-Fits (leaves id) h fits = (
  omega (arith, fits.0, length-keep-le (λ c. not (c.id == id)) h.clients),
  keep-Bounded _ h.clients fits.1,
)
happen-Fits (writes id) h fits =
    let (same, bounded) = take_payload-Bounded id h.clients fits.1 in
    (omega (arith, same, fits.0), bounded)
happen-Fits shuts h fits = fits
happen-Fits (asks id compact now built) h fits =
    answer-Fits id (snapshot_payload compact false now built h)
      (subst Fits (sym (snapshot_payload-clients compact false now built h)) fits)
happen-Fits (broadcasts now full compact) h fits =
    do_broadcast_nodes-Fits false now full compact h fits
happen-Fits (forces now full compact) h fits =
    do_broadcast_nodes-Fits true now full compact (clear_caches h) fits
