-- ===== src/Limits/Login.antt =====
-- `loginLimiter` of internal/server/security.go, which guards logins and registrations. `clients`
-- maps a client address to its window; the mutex is held for a whole method, so a method is one
-- step, at the instant `now` that it reads.
use vibemonitor.Prelude.{
  ℕ, ◌+◌, ◌*◌, Bool, true, false, List, String, Option, none, some, if◌then◌else◌, leb, length,
}
use vibemonitor.Prelude.Assoc.{String_discrete, lookup, insert, delete, retain}
use vibemonitor.Prelude.Clock.{minute, before}
use vibemonitor.Limits.Oldest.{drop_oldest}

abbrev pub max_login_clients : ℕ
max_login_clients = 4096

abbrev pub max_attempts : ℕ
max_attempts = 10

abbrev pub login_period : ℕ
login_period = 5 * minute

pub record LoginWindow : Type 0 where
  pub count : ℕ
  pub expires : ℕ

abbrev pub Clients : Type 0
Clients = List (String × LoginWindow)

-- `pruneExpiredLocked`
unfoldable pub prune_expired : ℕ → Clients → Clients
prune_expired now clients = retain (λ _ w. before now w.expires) clients

abbrev pub drop_oldest_client : Clients → Clients
drop_oldest_client = drop_oldest (λ w. w.expires)

-- The first half of the branch `!ok` of `allow`.
unfoldable pub make_room : ℕ → Clients → Clients
make_room now clients =
    if leb max_login_clients (length clients)
    then (let pruned = prune_expired now clients in
        if leb max_login_clients (length pruned) then drop_oldest_client pruned else pruned)
    else clients

-- The end of `allow`: refuse a full window, or count the attempt and store the window.
unfoldable pub admit : String → LoginWindow → Clients → Clients × Bool
admit key v clients =
    if leb max_attempts v.count
    then (clients, false)
    else (insert String_discrete key (record v { count = v.count + 1 }) clients, true)

-- `allow` after its lookup. On an expired window the source deletes the entry and sets `ok` to
-- false, and keeps in `v` the count that the window had.
unfoldable pub allow_found : String → ℕ → Clients → Option LoginWindow → Clients × Bool
allow_found key now clients none =
    admit key (record { count = 0; expires = now + login_period }) (make_room now clients)
allow_found key now clients (some v) =
    if before now v.expires
    then admit key v clients
    else admit key (record v { expires = now + login_period })
        (make_room now (delete String_discrete key clients))

-- `allow`, with the client's address as `requestClientIP` gives it.
unfoldable pub allow : Clients → String → ℕ → Clients × Bool
allow clients key now = allow_found key now clients (lookup String_discrete key clients)
