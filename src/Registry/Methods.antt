-- ===== src/Registry/Methods.antt =====
-- The method registry of registry.ts is lossless.
use bare_network_inspect.Base.{
  ℕ, zero, suc, ◌≡◌, refl, inl, inr, some, List, [], ◌∷◌, ◌++◌, length, get_elem?, arith, All,
  JsString, same, map_get, map_set, Option-cases,
}
use bare_network_inspect.Registry.{MethodRegistry, intern, seed_from, new_methods, lookup}

-- Each entry of the one table is undone by the other.
abbrev pub IsLossless : MethodRegistry → Type 0
IsLossless r = All (λ e. get_elem? r.i2s e.1 ≡ some e.0) r.s2i

get_elem?-snoc :
    (xs : List JsString) (x : JsString) → get_elem? (xs ++ (x ∷ [])) (length xs) ≡ some x
get_elem?-snoc [] x = refl
get_elem?-snoc (y ∷ xs) x = get_elem?-snoc xs x

get_elem?-append :
    (xs ys : List JsString) (i : ℕ) (x : JsString)
    → get_elem? xs i ≡ some x
    → get_elem? (xs ++ ys) i ≡ some x
get_elem?-append [] ys i x h = absurd (ground arith)
get_elem?-append (y ∷ xs) ys zero x h = h
get_elem?-append (y ∷ xs) ys (suc i) x h = get_elem?-append xs ys i x h

All-map_get :
    (i2s : List JsString) (m : List (JsString × ℕ)) (k : JsString) (i : ℕ)
    → All (λ e. get_elem? i2s e.1 ≡ some e.0) m
    → map_get same k m ≡ some i
    → get_elem? i2s i ≡ some k
unfolding map_get
All-map_get i2s [] k i h e = ground arith
All-map_get i2s ((j, n) ∷ m) k i h e = ground (arith, All-map_get i2s m k i)

All-weaken :
    (i2s : List JsString) (x : JsString) (m : List (JsString × ℕ))
    → All (λ e. get_elem? i2s e.1 ≡ some e.0) m
    → All (λ e. get_elem? (i2s ++ (x ∷ [])) e.1 ≡ some e.0) m
All-weaken i2s x [] h = tt
All-weaken i2s x ((j, n) ∷ m) h = (get_elem?-append i2s (x ∷ []) n j h.0, All-weaken i2s x m h.1)

All-map_set :
    (i2s : List JsString) (x : JsString) (m : List (JsString × ℕ))
    → All (λ e. get_elem? i2s e.1 ≡ some e.0) m
    → All (λ e. get_elem? (i2s ++ (x ∷ [])) e.1 ≡ some e.0) (map_set same x (length i2s) m)
unfolding map_set
All-map_set i2s x [] h = (get_elem?-snoc i2s x, tt)
All-map_set i2s x ((j, n) ∷ m) h = ground (
  arith,
  get_elem?-append i2s (x ∷ []) n j h.0,
  All-weaken i2s x m h.1,
  All-map_set i2s x m h.1,
  get_elem?-snoc i2s x,
)

pub intern-IsLossless :
    (r : MethodRegistry) (m : JsString)
    → IsLossless r
    → IsLossless (intern r m).0 × (lookup (intern r m).0 (intern r m).1 ≡ some m)
unfolding intern lookup
intern-IsLossless r m h = elim (Option-cases (map_get same m r.s2i)) [
  | inl e ↦ rw (e, intern) (All-map_set r.i2s m r.s2i h, get_elem?-snoc r.i2s m)
  | inr (i, e) ↦ rw (e, intern) (h, All-map_get r.i2s r.s2i m i h e)
]

seed_from-IsLossless :
    (r : MethodRegistry) (seed : List JsString) → IsLossless r → IsLossless (seed_from r seed)
unfolding seed_from
seed_from-IsLossless r [] h = h
seed_from-IsLossless r (m ∷ seed) h =
    seed_from-IsLossless (intern r m).0 seed (intern-IsLossless r m h).0

lookup-seed_from :
    (r : MethodRegistry) (seed : List JsString) (i : ℕ) (m : JsString)
    → lookup r i ≡ some m
    → lookup (seed_from r seed) i ≡ some m
unfolding lookup seed_from intern
lookup-seed_from r [] i m h = h
lookup-seed_from r (n ∷ seed) i m h =
    lookup-seed_from (intern r n).0 seed i m (elim (Option-cases (map_get same n r.s2i)) [
      | inl e ↦ ground (arith, get_elem?-append r.i2s (n ∷ []) i m h)
      | inr (k, e) ↦ ground arith
    ])

-- In a registry that the constructor makes from any seed, the integer that a method gets is looked up
-- as the method, then and after any further methods.
pub lookup-intern :
    (seed later : List JsString) (m : JsString)
    → let r = intern (new_methods seed) m in lookup (seed_from r.0 later) r.1 ≡ some m
unfolding new_methods
lookup-intern seed later m =
    let r = new_methods seed in
    lookup-seed_from (intern r m).0 later (intern r m).1 m
      (intern-IsLossless r m (seed_from-IsLossless (record { s2i = []; i2s = [] }) seed tt)).1
