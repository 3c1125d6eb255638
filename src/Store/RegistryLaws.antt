-- ===== src/Store/RegistryLaws.antt =====
-- The nodes and the token index of internal/store/store.go stay inverse to each other.
use vibemonitor.Prelude.{
  ℕ, ◌≡◌, ◌≢◌, refl, sym, ap, ◌∙◌, Bool, true, false, List, [], ◌∷◌, String, Option, none, some,
  arith,
}
use vibemonitor.Prelude.Int.{ℤ, pos_part}
use vibemonitor.Prelude.Assoc.{
  String_discrete, lookup, insert, delete, lookup-insert_self, lookup-insert_ne, lookup-delete_self,
  lookup-delete_ne,
}
use vibemonitor.Store.Registry.{
  Entry, Registry, Options, StoreError, new_entry, create_node, delete_found, delete_node,
  set_weight, set_weights, reorder_nodes, find_indexed, find_node_by_token,
}

-- Each indexed token is that of a node, and each node's token leads to it.
pub record IsIndexed (nodes : List (String × Entry)) (index : List (String × String)) : Type 0 where
  pub found :
      (token uuid : String)
      → lookup String_discrete token index ≡ some uuid
      → (e : Entry) × (lookup String_discrete uuid nodes ≡ some e) × (e.token ≡ token)
  pub owned :
      (uuid : String) (e : Entry)
      → lookup String_discrete uuid nodes ≡ some e
      → lookup String_discrete e.token index ≡ some uuid

insert-IsIndexed :
    (uuid : String) (e : Entry) (nodes : List (String × Entry)) (index : List (String × String))
    → lookup String_discrete uuid nodes ≡ none
    → lookup String_discrete e.token index ≡ none
    → IsIndexed nodes index
    → IsIndexed (insert String_discrete uuid e nodes) (insert String_discrete e.token uuid index)
insert-IsIndexed uuid e nodes index new_uuid new_token h = record {
  found = λ token u held. elim (String_discrete e.token token) [
    | yes same ↦
        let new = lookup-insert_self String_discrete e.token uuid index in
        let here = lookup-insert_self String_discrete uuid e nodes in (e, cc, same)
    | no other ↦
        let old = lookup-insert_ne String_discrete token e.token uuid index other in
        let (x, at, its) = h.found token u (sym old ∙ held) in
        (x, lookup-insert_ne String_discrete u uuid e nodes (λ p. cc) ∙ at, its)
  ];
  owned = λ u e' held. elim (String_discrete uuid u) [
    | yes same ↦
        let new = lookup-insert_self String_discrete e.token uuid index in
        let here = lookup-insert_self String_discrete uuid e nodes in cc
    | no other ↦
        let old = lookup-insert_ne String_discrete u uuid e nodes other in
        let at = h.owned u e' (sym old ∙ held) in
        lookup-insert_ne String_discrete e'.token e.token uuid index (λ p. cc) ∙ at
  ];
}

delete-IsIndexed :
    (uuid : String) (e : Entry) (nodes : List (String × Entry)) (index : List (String × String))
    → lookup String_discrete uuid nodes ≡ some e
    → IsIndexed nodes index
    → IsIndexed (delete String_discrete uuid nodes) (delete String_discrete e.token index)
delete-IsIndexed uuid e nodes index there h = record {
  found = λ token u held. elim (String_discrete e.token token) [
    | yes same ↦ let gone = lookup-delete_self String_discrete e.token index in absurd cc
    | no other ↦
        let old = lookup-delete_ne String_discrete token e.token index other in
        let (x, at, its) = h.found token u (sym old ∙ held) in
        (
          x,
          lookup-delete_ne String_discrete u uuid nodes
                (λ p. other (let same : e ≡ x = cc in ap (λ n. n.token) same ∙ its))
              ∙ at,
          its,
        )
  ];
  owned = λ u e' held. elim (String_discrete uuid u) [
    | yes same ↦ let gone = lookup-delete_self String_discrete uuid nodes in absurd cc
    | no other ↦
        let old = lookup-delete_ne String_discrete u uuid nodes other in
        let at = h.owned u e' (sym old ∙ held) in
        let first = h.owned uuid e there in
        lookup-delete_ne String_discrete e'.token e.token index (λ p. other cc) ∙ at
  ];
}

-- Another weight leaves the tokens as they are.
weigh-IsIndexed :
    (uuid : String) (w : ℕ) (e : Entry) (nodes : List (String × Entry))
    (index : List (String × String))
    → lookup String_discrete uuid nodes ≡ some e
    → IsIndexed nodes index
    → IsIndexed (insert String_discrete uuid (record e { weight = w }) nodes) index
weigh-IsIndexed uuid w e nodes index there h = record {
  found = λ token u held. elim (String_discrete uuid u) [
    | yes same ↦
        let (x, at, its) = h.found token u held in
        let here = lookup-insert_self String_discrete uuid (record e { weight = w }) nodes in
        let both : e ≡ x = cc in (record e { weight = w }, cc, ap (λ n. n.token) both ∙ its)
    | no other ↦
        let (x, at, its) = h.found token u held in
        (x, lookup-insert_ne String_discrete u uuid (record e { weight = w }) nodes other ∙ at, its)
  ];
  owned = λ u e' held. elim (String_discrete uuid u) [
    | yes same ↦
        let here = lookup-insert_self String_discrete uuid (record e { weight = w }) nodes in
        let first = h.owned uuid e there in
        let now : record e { weight = w } ≡ e' = cc in
        ap (λ n. lookup String_discrete n.token index) (sym now) ∙ first ∙ ap some same
    | no other ↦
        h.owned u e' (
          sym (lookup-insert_ne String_discrete u uuid (record e { weight = w }) nodes other)
          ∙ held)
  ];
}

set_weight-IsIndexed :
    (uuid : String) (w : ℕ) (nodes : List (String × Entry)) (index : List (String × String))
    (found : Option Entry)
    → found ≡ lookup String_discrete uuid nodes
    → IsIndexed nodes index
    → IsIndexed (set_weight uuid w nodes found) index
unfolding set_weight
set_weight-IsIndexed uuid w nodes index none e h = h
set_weight-IsIndexed uuid w nodes index (some x) e h =
    weigh-IsIndexed uuid w x nodes index (sym e) h

set_weights-IsIndexed :
    (order : List (String × ℤ)) (nodes : List (String × Entry)) (index : List (String × String))
    → IsIndexed nodes index
    → IsIndexed (set_weights order nodes) index
unfolding set_weights
set_weights-IsIndexed [] nodes index h = h
set_weights-IsIndexed ((uuid, w) ∷ order) nodes index h =
    set_weights-IsIndexed order _ index
      (set_weight-IsIndexed uuid (pos_part w) nodes index _ refl h)

-- The operations that change nodes or tokens. A creation brings the identifiers that it draws.
pub data Operation : Type 0 where
  creation : (unique_name : Bool) (opts : Options) (uuid token : String) (saved : Bool) → Operation
  deletion : (uuid : String) (saved : Bool) → Operation
  reordering : (order : List (String × ℤ)) (saved : Bool) → Operation

-- Drawn identifiers are new.
abbrev pub Fresh : {R : Type 0} → Operation → Registry R → Type 0
Fresh (creation unique_name opts uuid token saved) s =
    (lookup String_discrete uuid s.nodes ≡ none)
    × (lookup String_discrete token s.token_index ≡ none)
Fresh (deletion uuid saved) s = Unit
Fresh (reordering order saved) s = Unit

found_indexed :
    (token : String) (nodes : List (String × Entry)) (index : List (String × String))
    (uuid : Option String)
    → uuid ≡ lookup String_discrete token index
    → IsIndexed nodes index
    → find_indexed nodes uuid ≢ some none
unfolding find_indexed
found_indexed token nodes index none e h = λ p. cc
found_indexed token nodes index (some uuid) e h =
    let (x, at, its) = h.found token uuid (sym e) in λ p. cc

module _ {R : Type 0} (equal_fold : String → String → Bool) where
  unfoldable pub perform : Operation → Registry R → Registry R × Option StoreError
  perform (creation unique_name opts uuid token saved) s =
      create_node equal_fold unique_name opts uuid token saved s
  perform (deletion uuid saved) s = delete_node uuid saved s
  perform (reordering order saved) s = reorder_nodes order saved s

  delete_found_failed :
      (uuid : String) (saved : Bool) (s : Registry R) (found : Option Entry) (error : StoreError)
      → (delete_found uuid saved s found).1 ≡ some error
      → (delete_found uuid saved s found).0 ≡ s
  unfolding delete_found
  delete_found_failed uuid saved s none error h = refl
  delete_found_failed uuid true s (some x) error h = absurd cc
  delete_found_failed uuid false s (some x) error h = refl

  -- An operation that fails, refused or not saved, changes nothing.
  perform_failed :
      (o : Operation) (s : Registry R) (error : StoreError)
      → (perform o s).1 ≡ some error
      → (perform o s).0 ≡ s
  unfolding perform create_node delete_node reorder_nodes
  perform_failed (creation unique_name opts uuid token saved) s error h = ground (arith, h)
  perform_failed (deletion uuid saved) s error h = delete_found_failed uuid saved s _ error h
  perform_failed (reordering order saved) s error h = ground (arith, h)

  delete_found-IsIndexed :
      (uuid : String) (saved : Bool) (s : Registry R) (found : Option Entry)
      → found ≡ lookup String_discrete uuid s.nodes
      → IsIndexed s.nodes s.token_index
      → IsIndexed
          (delete_found uuid saved s found).0.nodes
          (delete_found uuid saved s found).0.token_index
  unfolding delete_found
  delete_found-IsIndexed uuid saved s none e h = h
  delete_found-IsIndexed uuid true s (some x) e h =
      delete-IsIndexed uuid x s.nodes s.token_index (sym e) h
  delete_found-IsIndexed uuid false s (some x) e h = h

  -- Every operation keeps the nodes and the token index inverse to each other, if the identifiers
  -- that a creation draws are new.
  pub perform-IsIndexed :
      (o : Operation) (s : Registry R)
      → Fresh o s
      → IsIndexed s.nodes s.token_index
      → IsIndexed (perform o s).0.nodes (perform o s).0.token_index
  unfolding perform delete_node create_node reorder_nodes
  perform-IsIndexed (creation unique_name opts uuid token saved) s fresh h =
      let made =
        insert-IsIndexed uuid (new_entry s opts uuid token) s.nodes s.token_index fresh.0 fresh.1
          h in
      ground (arith, h, made)
  perform-IsIndexed (deletion uuid saved) s fresh h = delete_found-IsIndexed uuid saved s _ refl h
  perform-IsIndexed (reordering order saved) s fresh h =
      let weighed = set_weights-IsIndexed order s.nodes s.token_index h in
      ground (arith, h, weighed)

  -- A token that is indexed leads to the node that has it: the store never meets an index entry
  -- without its node.
  find_node_by_token_indexed :
      (token : String) (s : Registry R)
      → IsIndexed s.nodes s.token_index
      → find_node_by_token token s ≢ some none
  unfolding find_node_by_token
  find_node_by_token_indexed token s h = found_indexed token s.nodes s.token_index _ refl h

  created_token :
      (unique_name : Bool) (opts : Options) (uuid token : String) (s : Registry R)
      → (create_node equal_fold unique_name opts uuid token true s).1 ≡ none
      → (create_node equal_fold unique_name opts uuid token true s).0 ≡ record s {
        nodes = insert String_discrete uuid (new_entry s opts uuid token) s.nodes;
        token_index = insert String_discrete token uuid s.token_index;
      }
  unfolding create_node
  created_token unique_name opts uuid token s accepted = ground (arith, accepted)

  -- The token of a node that was created leads to that node.
  find_node_by_token-create_node :
      (unique_name : Bool) (opts : Options) (uuid token : String) (s : Registry R)
      → (create_node equal_fold unique_name opts uuid token true s).1 ≡ none
      → find_node_by_token token (create_node equal_fold unique_name opts uuid token true s).0
        ≡ some (some (new_entry s opts uuid token))
  unfolding find_node_by_token find_indexed
  find_node_by_token-create_node unique_name opts uuid token s accepted =
      rw (created_token unique_name opts uuid token s accepted) (
        rw (lookup-insert_self String_discrete token uuid s.token_index)
          (ap some (lookup-insert_self String_discrete uuid (new_entry s opts uuid token) s.nodes)))
