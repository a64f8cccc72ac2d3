-- ===== src/Base/Dict.antt =====
-- The JavaScript `Map` and `Set`: insertion-ordered, with one entry for each key.
-- A `Map` is the list of its entries and a `Set` the list of its members, oldest first.
use Prim.Native.Nat.{◌+◌, ◌≤◌}
use mathlib.Core.Path.{◌≡◌, refl, ◌∙◌}
use mathlib.Core.Logic.{ite, if_pos}
use mathlib.Core.Bool.{Bool, true, false}
use mathlib.Core.Option.{Option, none, some}
use mathlib.Core.List.{List, [], ◌∷◌, ◌++◌}
use native.Mathlib.Omega.{arith}
use bare_network_inspect.Base.Lists.{length}

module _ {K V : Type 0} (dec : Discrete K) where
  -- `map.get(k)`, with `none` for `undefined`.
  unfoldable pub map_get : K → List (K × V) → Option V
  map_get k [] = none
  map_get k ((j, v) ∷ m) = ite (dec j k) (some v) (map_get k m)

  -- `map.set(k, v)`: an old key keeps its place, a new one goes to the end.
  unfoldable pub map_set : K → V → List (K × V) → List (K × V)
  map_set k v [] = (k, v) ∷ []
  map_set k v ((j, w) ∷ m) = ite (dec j k) ((k, v) ∷ m) ((j, w) ∷ map_set k v m)

  -- `map.delete(k)`.
  unfoldable pub map_delete : K → List (K × V) → List (K × V)
  map_delete k [] = []
  map_delete k ((j, w) ∷ m) = let rest = map_delete k m in ite (dec j k) rest ((j, w) ∷ rest)

  pub map_get-set :
      (k j : K) (v : V) (m : List (K × V))
      → map_get j (map_set k v m) ≡ ite (dec k j) (some v) (map_get j m)
  unfolding map_get map_set
  map_get-set k j v [] = refl
  map_get-set k j v ((i, w) ∷ m) = ground (arith, map_get-set k j v m)

  pub map_get-delete :
      (k j : K) (m : List (K × V)) → map_get j (map_delete k m) ≡ ite (dec k j) none (map_get j m)
  unfolding map_get map_delete
  map_get-delete k j [] = ground arith
  map_get-delete k j ((i, w) ∷ m) = ground (arith, map_get-delete k j m)

  pub length-map_delete : (k : K) (m : List (K × V)) → length (map_delete k m) ≤ length m
  unfolding map_delete
  length-map_delete k [] = omega arith
  length-map_delete k ((i, w) ∷ m) = ground (arith, length-map_delete k m)

  pub length-map_set : (k : K) (v : V) (m : List (K × V)) → length (map_set k v m) ≤ length m + 1
  unfolding map_set
  length-map_set k v [] = omega arith
  length-map_set k v ((i, w) ∷ m) = ground (arith, length-map_set k v m)

  pub length-map_set_old :
      (k : K) (v w : V) (m : List (K × V))
      → map_get k m ≡ some w
      → length (map_set k v m) ≡ length m
  unfolding map_get map_set
  length-map_set_old k v w [] h = cc
  length-map_set_old k v w ((i, u) ∷ m) h = ground (arith, length-map_set_old k v w m)

  pub length-map_set_new :
      (k : K) (v : V) (m : List (K × V))
      → map_get k m ≡ none
      → length (map_set k v m) ≡ length m + 1
  unfolding map_get map_set
  length-map_set_new k v [] h = omega arith
  length-map_set_new k v ((i, u) ∷ m) h = ground (arith, length-map_set_new k v m)

  pub length-map_delete_head :
      (k : K) (v : V) (m : List (K × V)) → length (map_delete k ((k, v) ∷ m)) ≤ length m
  unfolding map_delete
  length-map_delete_head k v m = ground (arith, length-map_delete k m)

  -- No key has two entries.
  abbrev pub Distinct : List (K × V) → Type 0
  Distinct [] = Unit {0}
  Distinct ((k, v) ∷ m) = (map_get k m ≡ none) × Distinct m

  pub map_delete_miss : (k : K) (m : List (K × V)) → map_get k m ≡ none → map_delete k m ≡ m
  unfolding map_get map_delete
  map_delete_miss k [] h = refl
  map_delete_miss k ((i, u) ∷ m) h = ground (arith, map_delete_miss k m)

  pub length-map_delete_hit :
      (k : K) (v : V) (m : List (K × V))
      → Distinct m
      → map_get k m ≡ some v
      → length (map_delete k m) + 1 ≡ length m
  unfolding map_get map_delete
  length-map_delete_hit k v [] d h = cc
  length-map_delete_hit k v ((i, u) ∷ m) d h =
      ground (arith, length-map_delete_hit k v m, map_delete_miss k m)

  pub Distinct-set : (k : K) (v : V) (m : List (K × V)) → Distinct m → Distinct (map_set k v m)
  unfolding map_set map_get
  Distinct-set k v [] d = (refl, tt)
  Distinct-set k v ((i, u) ∷ m) d = ground (arith, Distinct-set k v m, map_get-set k i v m)

  pub Distinct-delete : (k : K) (m : List (K × V)) → Distinct m → Distinct (map_delete k m)
  unfolding map_delete
  Distinct-delete k [] d = d
  Distinct-delete k ((i, u) ∷ m) d = ground (arith, Distinct-delete k m, map_get-delete k i m)

  pub map_get-cons_self : (k : K) (v : V) (m : List (K × V)) → map_get k ((k, v) ∷ m) ≡ some v
  unfolding map_get
  map_get-cons_self k v m = ground arith

  pub map_get-set_self : (k : K) (v : V) (m : List (K × V)) → map_get k (map_set k v m) ≡ some v
  map_get-set_self k v m = map_get-set k k v m ∙ if_pos (dec k k) refl (some v) (map_get k m)

  pub map_get-append :
      (k : K) (front back : List (K × V))
      → map_get k (front ++ back) ≡ none
      → (map_get k front ≡ none) × (map_get k back ≡ none)
  unfolding map_get
  map_get-append k [] back h = (refl, h)
  map_get-append k ((j, q) ∷ front) back h = ground (arith, map_get-append k front back)

  -- Deleting the key of an entry of a map takes just that entry out.
  pub map_delete_middle :
      (k : K) (v : V) (front back : List (K × V))
      → Distinct (front ++ ((k, v) ∷ back))
      → map_delete k (front ++ ((k, v) ∷ back)) ≡ front ++ back
  unfolding map_delete map_get
  map_delete_middle k v [] back d = ground (arith, map_delete_miss k back)
  map_delete_middle k v ((j, q) ∷ front) back d =
      ground (arith, map_delete_middle k v front back, map_get-append j front ((k, v) ∷ back))

module _ {K : Type 0} (dec : Discrete K) where
  unfoldable pub set_has : K → List K → Bool
  set_has k [] = false
  set_has k (j ∷ s) = ite (dec j k) true (set_has k s)

  unfoldable pub set_add : K → List K → List K
  set_add k [] = k ∷ []
  set_add k (j ∷ s) = ite (dec j k) (j ∷ s) (j ∷ set_add k s)

  unfoldable pub set_delete : K → List K → List K
  set_delete k [] = []
  set_delete k (j ∷ s) = let rest = set_delete k s in ite (dec j k) rest (j ∷ rest)

  pub set_has-add :
      (k j : K) (s : List K) → set_has j (set_add k s) ≡ ite (dec k j) true (set_has j s)
  unfolding set_has set_add
  set_has-add k j [] = refl
  set_has-add k j (i ∷ s) = ground (arith, set_has-add k j s)

  pub set_has-delete :
      (k j : K) (s : List K) → set_has j (set_delete k s) ≡ ite (dec k j) false (set_has j s)
  unfolding set_has set_delete
  set_has-delete k j [] = ground arith
  set_has-delete k j (i ∷ s) = ground (arith, set_has-delete k j s)

  pub length-set_add : (k : K) (s : List K) → length (set_add k s) ≤ length s + 1
  unfolding set_add
  length-set_add k [] = omega arith
  length-set_add k (i ∷ s) = ground (arith, length-set_add k s)

  pub length-set_delete : (k : K) (s : List K) → length (set_delete k s) ≤ length s
  unfolding set_delete
  length-set_delete k [] = omega arith
  length-set_delete k (i ∷ s) = ground (arith, length-set_delete k s)
