-- ===== src/Examples/Store.antt =====
-- The store's registry and queue on small states.
use vibemonitor.Prelude.{
  ◌+◌, ◌<◌, ℕ, ◌≡◌, ◌≢◌, refl, sym, ap, [], ◌∷◌, ◌++◌, arith, Bool, true, false, not, List, String,
  none, All,
}
use vibemonitor.Prelude.Int.{pos}
use vibemonitor.Prelude.Assoc.{String_discrete, lookup}
use text.Mathlib.Text.{◌==◌ as str_eq}
use vibemonitor.Store.Queue.{
  HistorySample, NodeTargets, Queue, Move, enqueue, capture, commit, roll_back, acknowledge, idle,
  moves, filter_history_samples,
}
use vibemonitor.Store.QueueLaws.{IsQueue, moves-settled, settled, all_taken}
use vibemonitor.Store.Registry.{Entry, Registry, Options, delete_node, find_node_by_token}
use vibemonitor.Store.RegistryLaws.{IsIndexed, creation, perform, perform-IsIndexed}
use vibemonitor.Store.Registration.{
  Window, registration_open, open_registration, window_minutes, registration_open_bounds,
}
use vibemonitor.Store.Deletion.{delete_node_revokes}

abbrev sample : String → HistorySample ℕ
sample uuid = record {
  uuid = uuid;
  target = "";
  host = "";
  method = "";
  observation_start = pos 0;
  timestamp = pos 60;
  readings = 7;
  latency = pos 0;
  ping = false;
}

abbrev queue : Queue ℕ
queue = record { pending = sample "n1" ∷ []; written = []; phase = idle }

abbrev known : NodeTargets
known = ("n1", none) ∷ ("n2", none) ∷ []

queue-IsQueue : IsQueue known [] queue
queue-IsQueue = record { bounded = omega arith; captures = tt }

abbrev flush : List (Move ℕ)
flush = capture ∷ enqueue (sample "n2") ∷ commit ∷ acknowledge ∷ capture ∷ roll_back ∷ []

moves-settled_example :
    settled known [] (moves known [] flush queue)
    ≡ settled known [] queue ++ filter_history_samples known [] (all_taken known [] flush queue)
moves-settled_example = moves-settled known [] flush queue queue-IsQueue

abbrev entry : Entry
entry = record { token = "t1"; name = "a"; group = ""; region = "DE"; weight = 1 }

abbrev registry : Registry ℕ
registry = record {
  nodes = ("n1", entry) ∷ [];
  token_index = ("t1", "n1") ∷ [];
  pending = sample "n1" ∷ sample "n2" ∷ [];
}

registry-IsIndexed : IsIndexed registry.nodes registry.token_index
unfolding lookup
registry-IsIndexed = record {
  found = λ token uuid held. elim (String_discrete "t1" token) [
    | yes same ↦ (entry, ground (arith, held, same), same)
    | no other ↦ absurd (ground (arith, held, other))
  ];
  owned = λ uuid e held. elim (String_discrete "n1" uuid) [
    | yes same ↦ ground (arith, held, same)
    | no other ↦ absurd (ground (arith, held, other))
  ];
}

abbrev same_name : String → String → Bool
same_name a b = str_eq a b

abbrev options : Options
options = record { name = "b"; group = "g"; region = "" }

perform-IsIndexed_example :
    IsIndexed
      (perform same_name (creation true options "n2" "t2" true) registry).0.nodes
      (perform same_name (creation true options "n2" "t2" true) registry).0.token_index
unfolding lookup String_discrete
perform-IsIndexed_example =
    perform-IsIndexed same_name (creation true options "n2" "t2" true) registry (refl, refl)
      registry-IsIndexed

delete_node_revokes_example :
    (find_node_by_token "t1" (delete_node "n1" true registry).0 ≡ none)
    × All (λ s. not (str_eq s.uuid "n1") ≡ true) (delete_node "n1" true registry).0.pending
unfolding lookup String_discrete
delete_node_revokes_example = delete_node_revokes "n1" entry registry refl

t1-t2 : entry.token ≢ "t2"
t1-t2 e =
    let differ : str_eq "t1" "t2" ≡ false = refl in
    let same : str_eq "t1" "t2" ≡ true = sym (ap (λ s. str_eq "t1" s) e) in cc

abbrev shut : Window
shut = record { auto_discovery_key = ""; register_until = 0 }

abbrev drawn : String
drawn = "k1"

registration_open_bounds_example : (drawn ≡ "k1") × (1000 < 500 + 86400)
unfolding registration_open open_registration window_minutes
registration_open_bounds_example = registration_open_bounds (pos 30) "k1" drawn 500 1000 shut refl
