-- ===== src/Prelude/Assoc.antt =====
-- Go maps as association lists. The order of the list stands for the order, unspecified in Go,
-- in which a `range` loop visits the map.
use vibemonitor.Prelude.Lists.{length}
use vibemonitor.Prelude.Tests.{if◌then◌else◌, is_some}
use Prim.Native.Nat.{suc, ◌+◌, ◌≤◌}
use Prim.Native.String.{String}
use mathlib.Core.Path.{◌≡◌, refl}
use mathlib.Core.Logic.{◌≢◌, ite}
use mathlib.Core.Bool.{Bool, true, false}
use mathlib.Core.Option.{Option, none, some}
use mathlib.Core.List.{List, [], ◌∷◌}
use native.Mathlib.Omega.{arith}
use text.Mathlib.Text.{◌==◌ as str_eq}
use text.Mathlib.TextEquality.{eq_iff}

decide_by :
    {A : Type 0} (a b : A) (t : Bool) → (t ≡ true → a ≡ b) → (a ≡ b → t ≡ true) → Dec (a ≡ b)
decide_by a b true sound complete = yes (sound refl)
decide_by a b false sound complete = no (λ e. cc (complete e))

-- `==` on strings.
unfoldable pub String_discrete : Discrete String
unfolding decide_by
String_discrete a b = decide_by a b (str_eq a b) (eq_iff a b).0 (eq_iff a b).1

module _ {ℓ} {K V : Type ℓ} (dec : Discrete K) where
  -- `v, ok := m[k]`
  unfoldable pub lookup : K → List (K × V) → Option V
  lookup k [] = none
  lookup k ((j, v) ∷ m) = ite (dec j k) (some v) (lookup k m)

  -- `m[k] = v`
  unfoldable pub insert : K → V → List (K × V) → List (K × V)
  insert k v [] = (k, v) ∷ []
  insert k v ((j, w) ∷ m) = ite (dec j k) ((k, v) ∷ m) ((j, w) ∷ insert k v m)

  -- `delete(m, k)`
  unfoldable pub delete : K → List (K × V) → List (K × V)
  delete k [] = []
  delete k ((j, v) ∷ m) = let rest = delete k m in ite (dec j k) rest ((j, v) ∷ rest)

module _ {ℓ} {K V : Type ℓ} where
  -- `for k, v := range m { if !p(k, v) { delete(m, k) } }`
  unfoldable pub retain : (K → V → Bool) → List (K × V) → List (K × V)
  retain p [] = []
  retain p ((j, v) ∷ m) = let rest = retain p m in if p j v then (j, v) ∷ rest else rest

  pub length-retain-le : (p : K → V → Bool) (m : List (K × V)) → length (retain p m) ≤ length m
  unfolding retain
  length-retain-le p [] = omega arith
  length-retain-le p ((j, v) ∷ m) = ground (arith, length-retain-le p m)

module _ {ℓ} {K V : Type ℓ} (dec : Discrete K) where
  -- No key stands twice.
  abbrev pub Distinct : List (K × V) → Type ℓ
  Distinct [] = Unit
  Distinct ((j, v) ∷ m) = (lookup dec j m ≡ none) × Distinct m

  pub lookup-insert :
      (j k : K) (v : V) (m : List (K × V))
      → lookup dec j (insert dec k v m) ≡ ite (dec k j) (some v) (lookup dec j m)
  unfolding lookup insert
  lookup-insert j k v [] = refl
  lookup-insert j k v ((i, w) ∷ m) = ground (arith, lookup-insert j k v m)

  pub lookup-insert_self :
      (k : K) (v : V) (m : List (K × V)) → lookup dec k (insert dec k v m) ≡ some v
  lookup-insert_self k v m = ground (arith, lookup-insert k k v m)

  pub lookup-insert_ne :
      (j k : K) (v : V) (m : List (K × V))
      → k ≢ j
      → lookup dec j (insert dec k v m) ≡ lookup dec j m
  lookup-insert_ne j k v m h = ground (arith, lookup-insert j k v m)

  pub lookup-delete :
      (j k : K) (m : List (K × V))
      → lookup dec j (delete dec k m) ≡ ite (dec k j) none (lookup dec j m)
  unfolding lookup delete
  lookup-delete j k [] = ground arith
  lookup-delete j k ((i, w) ∷ m) = ground (arith, lookup-delete j k m)

  pub lookup-delete_self : (k : K) (m : List (K × V)) → lookup dec k (delete dec k m) ≡ none
  lookup-delete_self k m = ground (arith, lookup-delete k k m)

  pub lookup-delete_ne :
      (j k : K) (m : List (K × V)) → k ≢ j → lookup dec j (delete dec k m) ≡ lookup dec j m
  lookup-delete_ne j k m h = ground (arith, lookup-delete j k m)

  pub delete_absent : (k : K) (m : List (K × V)) → lookup dec k m ≡ none → delete dec k m ≡ m
  unfolding lookup delete
  delete_absent k [] h = refl
  delete_absent k ((i, w) ∷ m) h = ground (arith, delete_absent k m)

  pub length-insert :
      (k : K) (v : V) (m : List (K × V))
      → length (insert dec k v m) ≡ (if is_some (lookup dec k m) then length m else length m + 1)
  unfolding lookup insert
  length-insert k v [] = omega arith
  length-insert k v ((i, w) ∷ m) = ground (arith, length-insert k v m)

  pub length-delete-le : (k : K) (m : List (K × V)) → length (delete dec k m) ≤ length m
  unfolding delete
  length-delete-le k [] = omega arith
  length-delete-le k ((i, w) ∷ m) = ground (arith, length-delete-le k m)

  pub length-delete-lt :
      (k : K) (v : V) (m : List (K × V))
      → lookup dec k m ≡ some v
      → suc (length (delete dec k m)) ≤ length m
  unfolding lookup delete
  length-delete-lt k v [] h = cc
  length-delete-lt k v ((i, w) ∷ m) h = ground (arith, length-delete-lt k v m, length-delete-le k m)

  pub insert-Distinct :
      (k : K) (v : V) (m : List (K × V)) → Distinct m → Distinct (insert dec k v m)
  unfolding lookup insert
  insert-Distinct k v [] d = (refl, tt)
  insert-Distinct k v ((i, w) ∷ m) d = ground (arith, lookup-insert i k v m, insert-Distinct k v m)

  pub delete-Distinct : (k : K) (m : List (K × V)) → Distinct m → Distinct (delete dec k m)
  unfolding delete
  delete-Distinct k [] d = tt
  delete-Distinct k ((i, w) ∷ m) d = ground (arith, lookup-delete i k m, delete-Distinct k m)

  lookup-retain_absent :
      (p : K → V → Bool) (k : K) (m : List (K × V))
      → lookup dec k m ≡ none
      → lookup dec k (retain p m) ≡ none
  unfolding lookup retain
  lookup-retain_absent p k [] h = refl
  lookup-retain_absent p k ((i, w) ∷ m) h = ground (arith, lookup-retain_absent p k m)

  pub lookup-retain :
      (p : K → V → Bool) (k : K) (v : V) (m : List (K × V))
      → Distinct m
      → lookup dec k m ≡ some v
      → lookup dec k (retain p m) ≡ (if p k v then some v else none)
  unfolding lookup retain
  lookup-retain p k v [] d h = cc
  lookup-retain p k v ((i, w) ∷ m) d h =
      ground (arith, lookup-retain p k v m, lookup-retain_absent p k m)

  pub retain-Distinct : (p : K → V → Bool) (m : List (K × V)) → Distinct m → Distinct (retain p m)
  unfolding retain
  retain-Distinct p [] d = tt
  retain-Distinct p ((i, w) ∷ m) d = ground (arith, lookup-retain_absent p i m, retain-Distinct p m)
