-- ===== src/Limits/LoginWindows.antt =====
-- How many attempts of one client a window of internal/server/security.go lets through, and what
-- `allow` does with a window that is over.
use vibemonitor.Prelude.{
  ℕ, suc, ◌∙◌, ◌+◌, ◌-◌, ◌≤◌, ◌<◌, ◌≡◌, refl, ◌≢◌, true, false, List, [], ◌∷◌, String, Option, none,
  some, length, arith, Bool-cases, inl, inr, All, min, leb, if◌then◌else◌, ite, dec_lt, ◌⊎◌,
}
use vibemonitor.Prelude.Assoc.{
  String_discrete, Distinct, lookup, insert, delete, length-insert, insert-Distinct,
  length-retain-le, retain-Distinct, delete-Distinct, length-delete-le, length-delete-lt,
  lookup-insert_self, lookup-insert_ne, lookup-delete_ne, lookup-retain,
}
use vibemonitor.Prelude.Clock.{before}
use vibemonitor.Limits.Login.{
  LoginWindow, Clients, max_login_clients, max_attempts, login_period, prune_expired, make_room,
  admit, allow_found, allow,
}

-- What reaches the limiter: an attempt from an address, or the pruning timer.
pub data Event : Type 0 where
  attempt : (client : String) (now : ℕ) → Event
  prune : (now : ℕ) → Event

abbrev pub time_of : Event → ℕ
time_of (attempt client now) = now
time_of (prune now) = now

unfoldable pub step : Event → Clients → Clients
step (attempt client now) clients = (allow clients client now).0
step (prune now) clients = prune_expired now clients

-- Does the event come from this client, and does the limiter let it through?
unfoldable pub counts : String → Event → Clients → ℕ
counts key (attempt client now) clients =
    ite (String_discrete client key) (if (allow clients client now).1 then 1 else 0) 0
counts key (prune now) clients = 0

unfoldable pub accepted : String → List Event → Clients → ℕ
accepted key [] clients = 0
accepted key (e ∷ es) clients = counts key e clients + accepted key es (step e clients)

unfoldable pub asks : String → Event → ℕ
asks key (attempt client now) = ite (String_discrete client key) 1 0
asks key (prune now) = 0

unfoldable pub attempts : String → List Event → ℕ
attempts key [] = 0
attempts key (e ∷ es) = asks key e + attempts key es

-- The client's window is on record, and `left` more clients fit.
pub record Holds (key : String) (w : LoginWindow) (left : ℕ) (clients : Clients) : Type 0 where
  pub distinct : Distinct String_discrete clients
  pub held : lookup String_discrete key clients ≡ some w
  pub room : length clients + left ≤ max_login_clients

make_room_id :
    (now : ℕ) (clients : Clients)
    → length clients < max_login_clients
    → make_room now clients ≡ clients
unfolding make_room
make_room_id now clients h = ground arith

module _ (key : String) (w : LoginWindow) (left : ℕ) where
  admit_other :
      (other : String) (v : LoginWindow) (clients : Clients)
      → other ≢ key
      → Holds key w (suc left) clients
      → Holds key w left (admit other v clients).0
  unfolding admit
  admit_other other v clients ne h = elim (Bool-cases (leb max_attempts v.count)) [
    | inl full ↦ rw full (record { distinct = h.distinct; held = h.held; room = omega arith })
    | inr free ↦ rw free (record {
      distinct = insert-Distinct String_discrete other _ clients h.distinct;
      held = lookup-insert_ne String_discrete key other _ clients ne ∙ h.held;
      room =
          ground
            (arith, length-insert String_discrete other (record v { count = v.count + 1 }) clients);
    })
  ]

  delete_other :
      (other : String) (clients : Clients)
      → other ≢ key
      → Holds key w (suc left) clients
      → Holds key w (suc left) (delete String_discrete other clients)
  delete_other other clients ne h = record {
    distinct = delete-Distinct String_discrete other clients h.distinct;
    held = lookup-delete_ne String_discrete key other clients ne ∙ h.held;
    room = omega (arith, length-delete-le String_discrete other clients, h.room);
  }

  allow_other :
      (other : String) (now : ℕ) (clients : Clients) (found : Option LoginWindow)
      → other ≢ key
      → Holds key w (suc left) clients
      → Holds key w left (allow_found other now clients found).0
  unfolding allow_found
  allow_other other now clients none ne h =
      rw (make_room_id now clients (omega arith)) (admit_other other _ clients ne h)
  allow_other other now clients (some v) ne h =
      let trimmed = delete_other other clients ne h in
      elim (Bool-cases (before now v.expires)) [
        | inl open_window ↦ rw open_window (admit_other other v clients ne h)
        | inr over ↦ rw over (
            rw (make_room_id now (delete String_discrete other clients) (omega arith))
              (admit_other other _ _ ne trimmed))
      ]

  prune_keeps :
      (now : ℕ) (clients : Clients)
      → now < w.expires
      → Holds key w (suc left) clients
      → Holds key w left (prune_expired now clients)
  unfolding prune_expired
  prune_keeps now clients live h = record {
    distinct = retain-Distinct String_discrete _ clients h.distinct;
    held =
        ground (arith, lookup-retain String_discrete (λ _ v. before now v.expires) key w clients);
    room = omega (arith, length-retain-le (λ _ v. before now v.expires) clients, h.room);
  }

  -- The client's own attempt within its window.
  allow_own :
      (now : ℕ) (clients : Clients)
      → now < w.expires
      → Holds key w (suc left) clients
      → allow clients key now ≡ admit key w clients
  unfolding allow allow_found
  allow_own now clients live h = rw h.held (ground arith)

  refuse_own :
      (now : ℕ) (clients : Clients)
      → now < w.expires
      → max_attempts ≤ w.count
      → Holds key w (suc left) clients
      → allow clients key now ≡ (clients, false)
  unfolding admit
  refuse_own now clients live full h = allow_own now clients live h ∙ ground arith

  accept_own :
      (now : ℕ) (clients : Clients)
      → now < w.expires
      → w.count < max_attempts
      → Holds key w (suc left) clients
      → allow clients key now
        ≡ (insert String_discrete key (record w { count = w.count + 1 }) clients, true)
  unfolding admit
  accept_own now clients live free h = allow_own now clients live h ∙ ground arith

  insert_own :
      (clients : Clients)
      → Holds key w (suc left) clients
      → Holds key
          (record w { count = w.count + 1 })
          left
          (insert String_discrete key (record w { count = w.count + 1 }) clients)
  insert_own clients h = record {
    distinct = insert-Distinct String_discrete key _ clients h.distinct;
    held = lookup-insert_self String_discrete key _ clients;
    room = ground (
      arith,
      h.held,
      length-insert String_discrete key (record w { count = w.count + 1 }) clients,
    );
  }

  -- A step of the run, for an event that is not an attempt of the client within its allowance.
  step_other :
      (e : Event) (clients : Clients)
      → asks key e ≡ 0
      → time_of e < w.expires
      → Holds key w (suc left) clients
      → Holds key w left (step e clients) × (counts key e clients ≡ 0)
  unfolding step counts asks allow
  step_other (prune now) clients quiet live h = (prune_keeps now clients live h, refl)
  step_other (attempt client now) clients quiet live h =
      let ne : client ≢ key = λ e. ground arith in
      (allow_other client now clients _ ne h, ground arith)

  step_refused :
      (e : Event) (clients : Clients)
      → asks key e ≡ 1
      → time_of e < w.expires
      → max_attempts ≤ w.count
      → Holds key w (suc left) clients
      → Holds key w left (step e clients) × (counts key e clients ≡ 0)
  unfolding step counts asks
  step_refused (prune now) clients asked live full h = absurd (omega arith)
  step_refused (attempt client now) clients asked live full h =
      let same : step (attempt client now) clients ≡ clients =
        ground (arith, refuse_own now clients live full h) in
      let uncounted : counts key (attempt client now) clients ≡ 0 =
        ground (arith, refuse_own now clients live full h) in
      (rw same (record { distinct = h.distinct; held = h.held; room = omega arith }), uncounted)

  step_accepted :
      (e : Event) (clients : Clients)
      → asks key e ≡ 1
      → time_of e < w.expires
      → w.count < max_attempts
      → Holds key w (suc left) clients
      → Holds key (record w { count = w.count + 1 }) left (step e clients)
        × (counts key e clients ≡ 1)
  unfolding step counts asks
  step_accepted (prune now) clients asked live free h = absurd (omega arith)
  step_accepted (attempt client now) clients asked live free h =
      let stored : step (attempt client now) clients
          ≡ insert String_discrete key (record w { count = w.count + 1 }) clients =
        ground (arith, accept_own now clients live free h) in
      let counted : counts key (attempt client now) clients ≡ 1 =
        ground (arith, accept_own now clients live free h) in
      (rw stored (insert_own clients h), counted)

asks_cases : (key : String) (e : Event) → (asks key e ≡ 1) ⊎ (asks key e ≡ 0)
unfolding asks
asks_cases key (attempt client now) = ground arith
asks_cases key (prune now) = inr refl

accepted_full :
    (key : String) (w : LoginWindow) (es : List Event) (clients : Clients)
    → max_attempts ≤ w.count
    → All (λ e. time_of e < w.expires) es
    → Holds key w (length es) clients
    → accepted key es clients ≡ 0
unfolding accepted
accepted_full key w [] clients full live h = refl
accepted_full key w (e ∷ es) clients full live h = elim (asks_cases key e) [
  | inl own ↦
      let (h', none_counted) = step_refused key w (length es) e clients own live.0 full h in
      omega (arith, none_counted, accepted_full key w es (step e clients) full live.1 h')
  | inr other ↦
      let (h', none_counted) = step_other key w (length es) e clients other live.0 h in
      omega (arith, none_counted, accepted_full key w es (step e clients) full live.1 h')
]

-- While a client's window is open, the limiter lets exactly the first attempts through that bring
-- its count to ten, and refuses the others, whatever other clients and the pruning timer do, as
-- long as the map has room for the clients that come.
pub accepted-eq-min :
    (key : String) (es : List Event) (w : LoginWindow) (clients : Clients)
    → w.count ≤ max_attempts
    → All (λ e. time_of e < w.expires) es
    → Holds key w (length es) clients
    → accepted key es clients ≡ min (attempts key es) (max_attempts - w.count)
unfolding accepted attempts
accepted-eq-min key [] w clients c live h = omega arith
accepted-eq-min key (e ∷ es) w clients c live h = elim (asks_cases key e) [
  | inr other ↦
      let (h', none_counted) = step_other key w (length es) e clients other live.0 h in
      omega (arith, none_counted, other, accepted-eq-min key es w (step e clients) c live.1 h')
  | inl own ↦ elim (dec_lt w.count max_attempts) [
    | yes free ↦
        let (h', counted) = step_accepted key w (length es) e clients own live.0 free h in
        omega (
          arith,
          counted,
          own,
          accepted-eq-min key es (record w { count = w.count + 1 }) (step e clients) (omega arith)
              live.1 h',
        )
    | no full ↦
        let all : accepted key (e ∷ es) clients ≡ 0 =
          accepted_full key w (e ∷ es) clients (omega arith) live h in
        omega (arith, all)
  ]
]

-- The deleted entry leaves room.
readmit :
    (clients : Clients) (key : String) (w : LoginWindow) (now : ℕ)
    → length clients ≤ max_login_clients
    → lookup String_discrete key clients ≡ some w
    → w.expires ≤ now
    → allow clients key now
      ≡ admit key (record w { expires = now + login_period }) (delete String_discrete key clients)
unfolding allow allow_found
readmit clients key w now bound found over =
    let room : length (delete String_discrete key clients) < max_login_clients =
      omega (arith, length-delete-lt String_discrete key w clients found, bound) in
    rw found (ground (arith, make_room_id now (delete String_discrete key clients) room))

-- In a map within its bound, a window that is over with at least ten attempts in it is not reset:
-- the first attempt after its end is refused, and only the entry is deleted.
pub allow_expired_refused :
    (clients : Clients) (key : String) (w : LoginWindow) (now : ℕ)
    → length clients ≤ max_login_clients
    → lookup String_discrete key clients ≡ some w
    → w.expires ≤ now
    → max_attempts ≤ w.count
    → allow clients key now ≡ (delete String_discrete key clients, false)
unfolding admit
allow_expired_refused clients key w now bound found over full =
    readmit clients key w now bound found over ∙ ground arith

-- In a map within its bound, the attempts of a window that is over, fewer than ten, are charged to
-- the window that follows it.
pub allow_expired_charged :
    (clients : Clients) (key : String) (w : LoginWindow) (now : ℕ)
    → length clients ≤ max_login_clients
    → lookup String_discrete key clients ≡ some w
    → w.expires ≤ now
    → w.count < max_attempts
    → lookup String_discrete key (allow clients key now).0
      ≡ some (record { count = w.count + 1; expires = now + login_period })
unfolding admit
allow_expired_charged clients key w now bound found over free =
    rw (readmit clients key w now bound found over) (
      ground (
        arith,
        lookup-insert_self String_discrete key
            (record { count = w.count + 1; expires = now + login_period })
            (delete String_discrete key clients),
      ))
