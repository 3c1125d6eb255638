-- ===== src/Rpc/RegisterLaws.antt =====
-- Who may register a node, and under which name (internal/server/rpc_handler.go).
use text.Mathlib.Text.{◌==◌ as str_eq}
use text.Mathlib.TextEquality.{eq_iff}
use vibemonitor.Prelude.{
  ℕ, ◌≡◌, ◌≢◌, refl, ap, sym, ◌∙◌, Bool, true, false, ◌||◌, List, [], ◌∷◌, String, Option, none,
  some, arith, Bool-cases, inl, inr, value_or,
}
use mathlib.Core.Logic.{ite}
use vibemonitor.Store.Registration.{registration_open}
use vibemonitor.Prelude.Assoc.{String_discrete, insert}
use vibemonitor.Store.Registry.{
  Registry, Entry, Options, create_node, StoreError, name_in_use, chosen_name, top_weight, max_int,
  new_entry,
}
use vibemonitor.Store.Registry.StoreError.{invalid_order, name_taken, not_found, not_saved}
use vibemonitor.Rpc.Dispatch.{Headers}
use vibemonitor.Rpc.Register.{
  valid_register_name, register_name, Registration, Gate, refuses_key, answer_for, register_options,
  register_node, handle_register,
}
use vibemonitor.Rpc.Register.Registered.{created, conflict}

-- The name of a registered node is one that hostnames have, whatever the request asked for.
register_name-valid : (name : String) → valid_register_name (register_name name) ≡ true
unfolding register_name valid_register_name
register_name-valid name = elim (Bool-cases (valid_register_name name)) [
  | inl good ↦ rw (good, register_name) good
  | inr bad ↦ rw (bad, register_name) refl
]

accepts : (key : String) (held : Option String) → refuses_key key held ≡ false → held ≡ some key
unfolding refuses_key
accepts key none h = absurd cc
accepts key (some its_key) h = ap some (sym ((eq_iff key its_key).0 (ground (arith, h))))

or_true : (a b : Bool) → b ≡ true → (a || b) ≡ true
or_true a b h = ground (arith, h)

module _ (equal_fold : String → String → Bool) where
  name_in_use-insert :
      (uuid name : String) (e : Entry) (nodes : List (String × Entry))
      → equal_fold e.name name ≡ true
      → name_in_use equal_fold (insert String_discrete uuid e nodes) name ≡ true
  unfolding name_in_use insert
  name_in_use-insert uuid name e [] same = rw same refl
  name_in_use-insert uuid name e ((j, f) ∷ nodes) same =
      place (String_discrete j uuid) (name_in_use-insert uuid name e nodes same)
    where
      place :
          (d : Dec (j ≡ uuid))
          → name_in_use equal_fold (insert String_discrete uuid e nodes) name ≡ true
          → name_in_use equal_fold
              (ite d ((uuid, e) ∷ nodes) ((j, f) ∷ insert String_discrete uuid e nodes))
              name
            ≡ true
      place (yes at) rest = rw same refl
      place (no other) rest = or_true (equal_fold f.name name) _ rest

module _ {R : Type 0} (headers : Headers) (equal_fold : String → String → Bool) where
  -- A registration that changes anything, be it the nodes or the count of its client's attempts, is a
  -- POST with the key of the registration window, which is open.
  pub handle_register_open :
      (now unix_now : ℕ) (r : Registration) (g : Gate R)
      → ((handle_register headers equal_fold now unix_now r g).1 ≢ g)
      → (r.is_post ≡ true)
        × (registration_open unix_now g.window
            ≡ some (value_or r.authorization (headers.after_bearer r.authorization)))
  unfolding handle_register
  handle_register_open now unix_now r g changed = elim (Bool-cases r.is_post) [
    | inr get ↦ absurd (changed (rw get refl))
    | inl post ↦
        let key = value_or r.authorization (headers.after_bearer r.authorization) in
        elim (Bool-cases (refuses_key key (registration_open unix_now g.window))) [
          | inl closed ↦ absurd (changed (rw (post, closed) refl))
          | inr fits ↦ (post, accepts key _ fits)
        ]
  ]

answered :
    (r : Registration) (name : String) (outcome : Option StoreError)
    → answer_for r name outcome ≡ created r.uuid r.token
    → outcome ≡ none
unfolding answer_for
answered r name none h = refl
answered r name (some invalid_order) h = absurd cc
answered r name (some name_taken) h = absurd cc
answered r name (some not_found) h = absurd cc
answered r name (some not_saved) h = absurd cc

valid_register_name-given :
    (name : String) → valid_register_name name ≡ true → str_eq name "" ≡ false
unfolding valid_register_name
valid_register_name-given name h = ground (arith, h)

chosen_name-register_name :
    (name uuid : String)
    → chosen_name (register_options (register_name name)) uuid ≡ register_name name
unfolding chosen_name
chosen_name-register_name name uuid =
    rw (valid_register_name-given (register_name name) (register_name-valid name)) refl

module _ {R : Type 0} (equal_fold : String → String → Bool) where
  created_nodes :
      (opts : Options) (uuid token : String) (saved : Bool) (s : Registry R)
      → (create_node equal_fold true opts uuid token saved s).1 ≡ none
      → (create_node equal_fold true opts uuid token saved s).0.nodes
        ≡ insert String_discrete uuid (new_entry s opts uuid token) s.nodes
  unfolding create_node
  created_nodes opts uuid token saved s accepted = ground (arith, accepted)

  created_name :
      (r : Registration) (g : Gate R)
      → (register_node equal_fold r g).0 ≡ created r.uuid r.token
      → equal_fold (register_name r.name) (register_name r.name) ≡ true
      → name_in_use equal_fold
          (register_node equal_fold r g).1.registry.nodes
          (register_name r.name)
        ≡ true
  unfolding register_node
  created_name r g h folds =
      let name = register_name r.name in
      let outcome =
        create_node equal_fold true (register_options name) r.uuid r.token r.saved g.registry in
      rw
        (created_nodes (register_options name) r.uuid r.token r.saved g.registry
          (answered r name outcome.1 h))
        (name_in_use-insert equal_fold r.uuid name _ g.registry.nodes
          (ap (λ n. equal_fold n name) (chosen_name-register_name r.name r.uuid) ∙ folds))

  conflicting :
      (r : Registration) (g : Gate R)
      → name_in_use equal_fold g.registry.nodes (register_name r.name) ≡ true
      → top_weight g.registry.nodes ≢ max_int
      → register_node equal_fold r g ≡ (conflict (register_name r.name), g)
  unfolding register_node create_node answer_for
  conflicting r g used room =
      rw (chosen_name-register_name r.name r.uuid, used) (ground (arith, room))

  -- A name that was registered is taken: a second registration under it answers with a conflict and
  -- changes nothing, whatever identifiers it draws, unless the display order is exhausted.
  register_node_again :
      (r r' : Registration) (g : Gate R)
      → (register_node equal_fold r g).0 ≡ created r.uuid r.token
      → r'.name ≡ r.name
      → equal_fold (register_name r.name) (register_name r.name) ≡ true
      → top_weight (register_node equal_fold r g).1.registry.nodes ≢ max_int
      → register_node equal_fold r' (register_node equal_fold r g).1
        ≡ (conflict (register_name r.name), (register_node equal_fold r g).1)
  register_node_again r r' g h same folds room =
      let used = created_name r g h folds in
      conflicting r' (register_node equal_fold r g).1
        (ap
            (λ n.
              name_in_use equal_fold (register_node equal_fold r g).1.registry.nodes
                (register_name n))
            same
          ∙ used)
        room
      ∙ ap (λ n. (conflict (register_name n), (register_node equal_fold r g).1)) same
