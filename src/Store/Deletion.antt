-- ===== src/Store/Deletion.antt =====
-- What `DeleteNodeContext` of internal/store/store.go takes away, and what it leaves.
use text.Mathlib.Text.{◌==◌ as str_eq}
use vibemonitor.Prelude.{
  ◌≡◌, ◌≢◌, refl, sym, ap, ◌∙◌, Bool, true, not, List, [], ◌∷◌, String, Option, none, some, All,
  keep, Bool-cases, inl, inr,
}
use vibemonitor.Prelude.Assoc.{
  String_discrete, lookup, delete, lookup-delete_self, lookup-delete_ne,
}
use vibemonitor.Store.Registry.{
  Entry, Registry, delete_found, delete_node, find_indexed, find_node_by_token,
}
use vibemonitor.Store.RegistryLaws.{IsIndexed}

All-keep : {A : Type 0} (p : A → Bool) (xs : List A) → All (λ x. p x ≡ true) (keep p xs)
All-keep p [] = tt
All-keep p (x ∷ xs) = elim (Bool-cases (p x)) [
  | inl kept ↦ rw kept (kept, All-keep p xs)
  | inr dropped ↦ rw dropped (All-keep p xs)
]

find_indexed_other :
    (uuid : String) (nodes : List (String × Entry)) (found : Option String)
    → found ≢ some uuid
    → find_indexed (delete String_discrete uuid nodes) found ≡ find_indexed nodes found
unfolding find_indexed
find_indexed_other uuid nodes none ne = refl
find_indexed_other uuid nodes (some u) ne =
    ap some (lookup-delete_ne String_discrete u uuid nodes (λ p. ne (ap some (sym p))))

module _ {R : Type 0} where
  deleted :
      (uuid : String) (e : Entry) (s : Registry R)
      → lookup String_discrete uuid s.nodes ≡ some e
      → (delete_node uuid true s).0 ≡ record {
        nodes = delete String_discrete uuid s.nodes;
        token_index = delete String_discrete e.token s.token_index;
        pending = keep (λ sample. not (str_eq sample.uuid uuid)) s.pending;
      }
  unfolding delete_node delete_found
  deleted uuid e s there = rw there refl

  -- After a deletion that committed the token of the node is unknown, and no queued sample is of
  -- the node.
  pub delete_node_revokes :
      (uuid : String) (e : Entry) (s : Registry R)
      → lookup String_discrete uuid s.nodes ≡ some e
      → (find_node_by_token e.token (delete_node uuid true s).0 ≡ none)
        × All (λ sample. not (str_eq sample.uuid uuid) ≡ true) (delete_node uuid true s).0.pending
  unfolding find_node_by_token find_indexed
  delete_node_revokes uuid e s there = rw (deleted uuid e s there) (
    ap (find_indexed (delete String_discrete uuid s.nodes))
        (lookup-delete_self String_discrete e.token s.token_index),
    All-keep (λ sample. not (str_eq sample.uuid uuid)) s.pending,
  )

  -- A deletion that committed leaves every other token's node as it was.
  delete_node_others :
      (uuid token : String) (e : Entry) (s : Registry R)
      → IsIndexed s.nodes s.token_index
      → lookup String_discrete uuid s.nodes ≡ some e
      → e.token ≢ token
      → find_node_by_token token (delete_node uuid true s).0 ≡ find_node_by_token token s
  unfolding find_node_by_token
  delete_node_others uuid token e s h there other = rw (deleted uuid e s there) (
      ap (find_indexed (delete String_discrete uuid s.nodes))
        (lookup-delete_ne String_discrete token e.token s.token_index other)
      ∙ find_indexed_other uuid s.nodes (lookup String_discrete token s.token_index) (λ held.
        let (x, at, its) = h.found token uuid held in
        other (let same : e ≡ x = cc in ap (λ n. n.token) same ∙ its)))
