-- ===== src/Live/Hub.antt =====
-- The clients and the payloads of `WSHub` in internal/server/ws_hub.go. A payload is a text, and
-- what `nodesPayload` would return is an argument, `none` for its error. The hub has its clients,
-- its last payloads and its caches under two mutexes; a method is one step here, and the writer of
-- a client, which empties its queue, another.
use text.Mathlib.Text.{◌==◌ as str_eq}
use vibemonitor.Prelude.{
  ℕ, Bool, true, false, not, ◌&&◌, ◌||◌, List, [], ◌∷◌, ◌++◌, String, Option, none, some,
  if◌then◌else◌, leb, ltb, ◌==◌, length, drop, keep, any,
}
use vibemonitor.Prelude.Clock.{is_zero, sub_lt}
use vibemonitor.Live.Pace.{min_update_interval}

abbrev pub max_clients : ℕ
max_clients = 1000

-- The capacity of `sendCh`.
abbrev pub queue_capacity : ℕ
queue_capacity = 4

-- `wsClient`; the connection is its `id`.
pub record Client : Type 0 where
  pub id : ℕ
  pub compact : Bool
  pub queue : List String
  pub last_request : ℕ

-- `allowSnapshotRequest`
unfoldable pub allow_snapshot_request : ℕ → Client → Client × Bool
allow_snapshot_request now c =
    if not (is_zero c.last_request) && sub_lt now c.last_request min_update_interval
    then (c, false)
    else (record c { last_request = now }, true)

-- `wsPayloadSnapshot`; a cache without payload is `none`.
pub record Snapshot : Type 0 where
  pub payload : String
  pub created_at : ℕ

-- What the hub has for one view.
pub record View : Type 0 where
  pub cache : Option Snapshot
  pub last_payload : Option String

pub record Hub : Type 0 where
  pub clients : List Client
  pub closed : Bool
  pub full_view : View
  pub compact_view : View

-- `h.payloadCache[index]`, with `lastPayload` or `lastCompactPayload`
unfoldable pub view_of : Bool → Hub → View
view_of true h = h.compact_view
view_of false h = h.full_view

unfoldable pub set_view : Bool → View → Hub → Hub
set_view true v h = record h { compact_view = v }
set_view false v h = record h { full_view = v }

-- `registerClient`
unfoldable pub register_client : Client → Hub → Hub × Bool
register_client c h =
    if h.closed || leb max_clients (length h.clients)
    then (h, false)
    else (record h { clients = c ∷ h.clients }, true)

-- The client that `HandleWS` makes.
abbrev pub new_client : ℕ → Bool → Client
new_client id compact = record { id = id; compact = compact; queue = []; last_request = 0 }

-- The writer of a client takes the oldest payload.
unfoldable pub take_payload : ℕ → List Client → List Client
take_payload id [] = []
take_payload id (c ∷ clients) =
    (if c.id == id then record c { queue = drop 1 c.queue } else c) ∷ take_payload id clients

-- The deferred `delete` of `HandleWS`.
unfoldable pub drop_client : ℕ → Hub → Hub
drop_client id h = record h { clients = keep (λ c. not (c.id == id)) h.clients }

unfoldable pub close : Hub → Hub
close h = record h { closed = true }

-- The two nested `select`s: a full queue loses its oldest payload.
unfoldable pub push_latest : String → List String → List String
push_latest payload queue =
    (if ltb (length queue) queue_capacity then queue else drop 1 queue) ++ (payload ∷ [])

unfoldable pub send : String → Client → Client
unfolding push_latest
send payload c = record c { queue = push_latest payload c.queue }

-- Does the cache serve?
unfoldable pub is_recent : ℕ → Option Snapshot → Option String
is_recent now none = none
is_recent now (some s) =
    if sub_lt now s.created_at min_update_interval then some s.payload else none

unfoldable pub rebuilt : Bool → ℕ → Option String → Hub → Hub × Option String
rebuilt compact now none h = (h, none)
rebuilt compact now (some payload) h = (
  set_view compact
      (record (view_of compact h) { cache = some (record { payload = payload; created_at = now }) })
      h,
  some payload,
)

unfoldable pub served : Bool → ℕ → Option String → Hub → Option String → Hub × Option String
served compact now built h (some payload) = (h, some payload)
served compact now built h none = rebuilt compact now built h

-- `snapshotPayload`
unfoldable pub snapshot_payload : Bool → Bool → ℕ → Option String → Hub → Hub × Option String
unfolding is_recent served rebuilt
snapshot_payload compact refresh now built h =
    served compact now built h (if refresh then none else is_recent now (view_of compact h).cache)

-- The clients of one view.
unfoldable pub views : Bool → Client → Bool
views true c = c.compact
views false c = not c.compact

unfoldable pub send_to_view : Bool → String → List Client → List Client
send_to_view compact payload [] = []
send_to_view compact payload (c ∷ clients) =
    (if views compact c then send payload c else c) ∷ send_to_view compact payload clients

unfoldable pub same_payload : Option String → String → Bool
same_payload none payload = false
same_payload (some last) payload = str_eq last payload

-- `sendNodesTo`, for the client with this `id`
unfoldable pub send_to_id : ℕ → String → List Client → List Client
send_to_id id payload [] = []
send_to_id id payload (c ∷ clients) =
    (if c.id == id then send payload c else c) ∷ send_to_id id payload clients

unfoldable pub answer : ℕ → Hub × Option String → Hub
answer id (h, none) = h
answer id (h, some payload) = record h { clients = send_to_id id payload h.clients }

unfoldable pub send_nodes_to : ℕ → Bool → ℕ → Option String → Hub → Hub
unfolding snapshot_payload answer
send_nodes_to id compact now built h = answer id (snapshot_payload compact false now built h)

-- One round of the loop over the groups, from the payload on.
unfoldable pub publish : Bool → Bool → Hub × Option String → Hub
publish compact force (h, none) = h
publish compact force (h, some payload) =
    if not force && same_payload (view_of compact h).last_payload payload
    then h
    else (let noted =
          set_view compact (record (view_of compact h) { last_payload = some payload }) h in
        record noted { clients = send_to_view compact payload h.clients })

unfoldable pub broadcast_view : Bool → Bool → ℕ → Option String → Hub → Hub
unfolding snapshot_payload publish
broadcast_view compact force now built h =
    let result = publish compact force (snapshot_payload compact true now built h) in
    if any (views compact) h.clients then result else h

-- `doBroadcastNodes`: the full view first, then the compact one.
unfoldable pub do_broadcast_nodes : Bool → ℕ → Option String → Option String → Hub → Hub
unfolding broadcast_view
do_broadcast_nodes force now full compact h =
    broadcast_view true force now compact (broadcast_view false force now full h)

unfoldable pub clear_caches : Hub → Hub
clear_caches h = record h {
  full_view = record h.full_view { cache = none };
  compact_view = record h.compact_view { cache = none };
}

-- `forceBroadcastNodes`
unfoldable pub force_broadcast_nodes : ℕ → Option String → Option String → Hub → Hub
unfolding clear_caches do_broadcast_nodes
force_broadcast_nodes now full compact h = do_broadcast_nodes true now full compact (clear_caches h)

-- What happens to a hub.
pub data Happening : Type 0 where
  joins : (id : ℕ) (compact : Bool) → Happening
  leaves writes : (id : ℕ) → Happening
  shuts : Happening
  asks : (id : ℕ) (compact : Bool) (now : ℕ) (built : Option String) → Happening
  broadcasts forces : (now : ℕ) (full compact : Option String) → Happening

unfoldable pub happen : Happening → Hub → Hub
happen (joins id compact) h = (register_client (new_client id compact) h).0
happen (leaves id) h = drop_client id h
happen (writes id) h = record h { clients = take_payload id h.clients }
happen shuts h = close h
happen (asks id compact now built) h = send_nodes_to id compact now built h
happen (broadcasts now full compact) h = do_broadcast_nodes false now full compact h
happen (forces now full compact) h = force_broadcast_nodes now full compact h
