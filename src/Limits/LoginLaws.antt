-- ===== src/Limits/LoginLaws.antt =====
-- What the attempt limiter of internal/server/security.go guarantees, and where its windows leak.
use vibemonitor.Prelude.{
  ℕ, ◌+◌, ◌≤◌, ◌<◌, ◌≡◌, refl, String, Option, none, some, length, arith, Bool-cases, inl, inr, leb,
}
use vibemonitor.Prelude.Assoc.{
  String_discrete, Distinct, lookup, retain, length-insert, insert-Distinct, length-retain-le,
  retain-Distinct, delete-Distinct, length-delete-le,
}
use vibemonitor.Prelude.Clock.{before}
use vibemonitor.Limits.Oldest.{length-drop_oldest, drop_oldest-Distinct}
use vibemonitor.Limits.Login.{
  LoginWindow, Clients, max_login_clients, max_attempts, prune_expired, make_room, admit,
  allow_found, allow,
}

pub record IsLimited (clients : Clients) : Type 0 where
  pub bounded : length clients ≤ max_login_clients
  pub distinct : Distinct String_discrete clients

make_room-bounded :
    (now : ℕ) (clients : Clients)
    → length clients ≤ max_login_clients
    → length (make_room now clients) < max_login_clients
unfolding make_room prune_expired
make_room-bounded now clients h = ground (
  arith,
  length-drop_oldest {V = LoginWindow} (λ w. w.expires) (prune_expired now clients),
  length-retain-le (λ (_ : String) (w : LoginWindow). before now w.expires) clients,
)

make_room-Distinct :
    (now : ℕ) (clients : Clients)
    → Distinct String_discrete clients
    → Distinct String_discrete (make_room now clients)
unfolding make_room prune_expired
make_room-Distinct now clients d = ground (
  arith,
  retain-Distinct String_discrete (λ _ w. before now w.expires) clients d,
  drop_oldest-Distinct {V = LoginWindow} (λ w. w.expires)
      (retain (λ _ w. before now w.expires) clients),
)

admit-IsLimited :
    (key : String) (v : LoginWindow) (clients : Clients)
    → length clients < max_login_clients
    → Distinct String_discrete clients
    → IsLimited (admit key v clients).0
unfolding admit
admit-IsLimited key v clients room d = elim (Bool-cases (leb max_attempts v.count)) [
  | inl full ↦ rw full (record { bounded = omega arith; distinct = d })
  | inr free ↦ rw free (record {
    bounded =
        ground
          (arith, length-insert String_discrete key (record v { count = v.count + 1 }) clients);
    distinct = insert-Distinct String_discrete key _ clients d;
  })
]

readmit-IsLimited :
    (key : String) (v : LoginWindow) (clients : Clients)
    → lookup String_discrete key clients ≡ some v
    → IsLimited clients
    → IsLimited (admit key v clients).0
unfolding admit
readmit-IsLimited key v clients found h = elim (Bool-cases (leb max_attempts v.count)) [
  | inl full ↦ rw full h
  | inr free ↦ rw free (record {
    bounded =
        ground
          (arith, length-insert String_discrete key (record v { count = v.count + 1 }) clients);
    distinct = insert-Distinct String_discrete key _ clients h.distinct;
  })
]

allow_found-IsLimited :
    (key : String) (now : ℕ) (clients : Clients) (found : Option LoginWindow)
    → lookup String_discrete key clients ≡ found
    → IsLimited clients
    → IsLimited (allow_found key now clients found).0
unfolding allow_found
allow_found-IsLimited key now clients none e h =
    admit-IsLimited key _ _ (make_room-bounded now clients h.bounded)
      (make_room-Distinct now clients h.distinct)
allow_found-IsLimited key now clients (some v) e h = elim (Bool-cases (before now v.expires)) [
  | inl open_window ↦ rw open_window (readmit-IsLimited key v clients e h)
  | inr over ↦ rw over (
      admit-IsLimited key _ _
        (make_room-bounded now _
          (omega (arith, length-delete-le String_discrete key clients, h.bounded)))
        (make_room-Distinct now _ (delete-Distinct String_discrete key clients h.distinct)))
]

-- Every attempt keeps the map within its 4096 clients and free of duplicate keys.
allow-IsLimited :
    (clients : Clients) (key : String) (now : ℕ)
    → IsLimited clients
    → IsLimited (allow clients key now).0
unfolding allow
allow-IsLimited clients key now h = allow_found-IsLimited key now clients _ refl h
