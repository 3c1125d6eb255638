-- ===== src/Store/Registry.antt =====
-- Nodes and their tokens in internal/store/store.go. Creating, reordering and deleting hold
-- `persistMu` from end to end, so each is one step on the nodes and the token index; reports, which
-- come while the database is busy, change neither. `saved` says whether the transaction committed.
use Prim.Native.String.{◌++◌ as str_append}
use text.Mathlib.Text.{◌==◌ as str_eq}
use vibemonitor.Prelude.{
  ℕ, zero, suc, ◌+◌, ◌^◌, ◌-◌, Bool, not, ◌&&◌, List, [], ◌∷◌, String, Option, none, some,
  if◌then◌else◌, any, keep, ◌==◌, max, is_some,
}
use vibemonitor.Prelude.Int.{ℤ, pos, pos_part, ltb_ℤ}
use vibemonitor.Prelude.Assoc.{String_discrete, lookup, insert, delete}
use vibemonitor.Store.Queue.{HistorySample}

-- Of a node, what these operations read and write.
pub record Entry : Type 0 where
  pub token : String
  pub name : String
  pub group : String
  pub region : String
  pub weight : ℕ

-- The maps `nodes` and `tokenIndex`, and the queue of history samples.
pub record Registry (R : Type 0) : Type 0 where
  pub nodes : List (String × Entry)
  pub token_index : List (String × String)
  pub pending : List (HistorySample R)

pub record Options : Type 0 where
  pub name : String
  pub group : String
  pub region : String

pub data StoreError : Type 0 where
  invalid_order name_taken not_found not_saved : StoreError

-- The largest `int`.
abbrev pub max_int : ℕ
max_int = 2 ^ 63 - 1

-- The loop for the display order of a new node.
unfoldable pub top_weight : List (String × Entry) → ℕ
top_weight [] = 0
top_weight ((uuid, e) ∷ nodes) = max (top_weight nodes) e.weight

-- `s[:n]`
unfoldable pub prefix : ℕ → String → String
prefix zero s = ""
prefix (suc n) String.[] = ""
prefix (suc n) (String.◌∷◌ c s) = String.◌∷◌ c (prefix n s)

-- The name and the region that a node gets for empty ones.
unfoldable pub chosen_name : Options → String → String
unfolding prefix
chosen_name opts uuid =
    if str_eq opts.name "" then str_append "node-" (prefix 8 uuid) else opts.name

unfoldable pub chosen_region : Options → String
chosen_region opts = if str_eq opts.region "" then "DEFAULT" else opts.region

-- `equal_fold` is strings.EqualFold.
unfoldable pub name_in_use : (String → String → Bool) → List (String × Entry) → String → Bool
name_in_use equal_fold nodes name = any (λ n. equal_fold n.1.name name) nodes

abbrev pub Outcome : Type 0 → Type 0
Outcome R = Registry R × Option StoreError

-- One round of the loops of `ReorderNodesContext`.
unfoldable pub set_weight :
    String → ℕ → List (String × Entry) → Option Entry → List (String × Entry)
set_weight uuid w nodes none = nodes
set_weight uuid w nodes (some e) = insert String_discrete uuid (record e { weight = w }) nodes

unfoldable pub set_weights : List (String × ℤ) → List (String × Entry) → List (String × Entry)
set_weights [] nodes = nodes
set_weights ((uuid, w) ∷ order) nodes =
    set_weights order (set_weight uuid (pos_part w) nodes (lookup String_discrete uuid nodes))

-- `FindNodeByToken` for a token indexed so. A node that is indexed and not there would be
-- dereferenced as nil; the outer `none` is no node, the inner one that panic.
unfoldable pub find_indexed : List (String × Entry) → Option String → Option (Option Entry)
find_indexed nodes none = none
find_indexed nodes (some uuid) = some (lookup String_discrete uuid nodes)

module _ {R : Type 0} where
  abbrev pub new_entry : Registry R → Options → String → String → Entry
  new_entry s opts uuid token = record {
    token = token;
    name = chosen_name opts uuid;
    group = opts.group;
    region = chosen_region opts;
    weight = top_weight s.nodes + 1;
  }

  -- The critical section of `createNodeContext`, with the identifiers that it draws.
  unfoldable pub create_node :
      (String → String → Bool) → Bool → Options → String → String → Bool → Registry R → Outcome R
  create_node equal_fold unique_name opts uuid token saved s =
      if top_weight s.nodes == max_int
      then (s, some invalid_order)
      else if unique_name && name_in_use equal_fold s.nodes (chosen_name opts uuid)
      then (s, some name_taken)
      else if not saved
      then (s, some not_saved)
      else (
        record s {
          nodes = insert String_discrete uuid (new_entry s opts uuid token) s.nodes;
          token_index = insert String_discrete token uuid s.token_index;
        },
        none,
      )

  -- `DeleteNodeContext` on a node found so.
  unfoldable pub delete_found : String → Bool → Registry R → Option Entry → Outcome R
  delete_found uuid saved s none = (s, some not_found)
  delete_found uuid saved s (some e) = if not saved then (s, some not_saved) else (
    record {
      nodes = delete String_discrete uuid s.nodes;
      token_index = delete String_discrete e.token s.token_index;
      pending = keep (λ sample. not (str_eq sample.uuid uuid)) s.pending;
    },
    none,
  )

  unfoldable pub delete_node : String → Bool → Registry R → Outcome R
  delete_node uuid saved s = delete_found uuid saved s (lookup String_discrete uuid s.nodes)

  unfoldable pub reorder_nodes : List (String × ℤ) → Bool → Registry R → Outcome R
  reorder_nodes order saved s =
      if any (λ o. ltb_ℤ o.1 (pos 0)) order
      then (s, some invalid_order)
      else if not (any (λ o. is_some (lookup String_discrete o.0 s.nodes)) order)
      then (s, none)
      else if not saved
      then (s, some not_saved)
      else (record s { nodes = set_weights order s.nodes }, none)

  unfoldable pub find_node_by_token : String → Registry R → Option (Option Entry)
  find_node_by_token token s = find_indexed s.nodes (lookup String_discrete token s.token_index)
