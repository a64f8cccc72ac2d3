-- ===== src/Observe/Invoke/Log.antt =====
-- The log of calls of packages/bare-observe/src/observe.ts: what holds of its entries.
use bare_network_inspect.Base.{
  ℕ, ◌≡◌, refl, arith, some, ◌⊎◌, inl, inr, List, [], ◌∷◌, ◌++◌, length, ltb, ite, JsString, same,
  map_get, map_set, map_delete, All, Bool-cases,
}
use bare_network_inspect.Observe.Inflight.{bounded_set, drop_oldest}

-- A call that is in a log.
abbrev pub Logged : {A : Type 0} → A → List A → Type 0
Logged a [] = ⊥
Logged a (x ∷ xs) = (x ≡ a) ⊎ Logged a xs

pub Logged-append : {A : Type 0} (a : A) (xs ys : List A) → Logged a xs → Logged a (xs ++ ys)
Logged-append a [] ys h = absurd h
Logged-append a (x ∷ xs) ys (inl e) = inl e
Logged-append a (x ∷ xs) ys (inr h) = inr (Logged-append a xs ys h)

pub Logged-last : {A : Type 0} (a : A) (xs : List A) → Logged a (xs ++ (a ∷ []))
Logged-last a [] = inl refl
Logged-last a (x ∷ xs) = inr (Logged-last a xs)

pub All-weaken :
    {A : Type 0} (P Q : A → Type 0) (xs : List A) → ((a : A) → P a → Q a) → All P xs → All Q xs
All-weaken P Q [] f h = tt
All-weaken P Q (x ∷ xs) f h = (f x h.0, All-weaken P Q xs f h.1)

module _ {W : Type 0} (P : JsString × W → Type 0) where
  All-map_set :
      (k : JsString) (w : W) (m : List (JsString × W))
      → P (k, w)
      → All P m
      → All P (map_set same k w m)
  unfolding map_set
  All-map_set k w [] p h = (p, tt)
  All-map_set k w ((j, u) ∷ m) p h =
      elim (same j k) as (λ d. All P (ite d ((k, w) ∷ m) ((j, u) ∷ map_set same k w m))) [
        | yes e ↦ (p, h.1)
        | no e ↦ (h.0, All-map_set k w m p h.1)
      ]

  All-map_delete : (k : JsString) (m : List (JsString × W)) → All P m → All P (map_delete same k m)
  unfolding map_delete
  All-map_delete k [] h = tt
  All-map_delete k ((j, u) ∷ m) h =
      elim (same j k) as (λ d. All P (ite d (map_delete same k m) ((j, u) ∷ map_delete same k m))) [
        | yes e ↦ All-map_delete k m h.1
        | no e ↦ (h.0, All-map_delete k m h.1)
      ]

  All-drop_oldest : (m : List (JsString × W)) → All P m → All P (drop_oldest m)
  unfolding drop_oldest
  All-drop_oldest [] h = tt
  All-drop_oldest ((k, w) ∷ m) h = All-map_delete k ((k, w) ∷ m) h

  pub All-bounded_set :
      (limit : ℕ) (k : JsString) (w : W) (m : List (JsString × W))
      → P (k, w)
      → All P m
      → All P (bounded_set limit k w m)
  unfolding bounded_set
  All-bounded_set limit k w m p h =
      let set = All-map_set k w m p h in
      elim (Bool-cases (ltb limit (length (map_set same k w m)))) [
        | inl e ↦ rw e (All-drop_oldest (map_set same k w m) set)
        | inr e ↦ rw e set
      ]

  pub All-map_get :
      (k : JsString) (m : List (JsString × W)) (w : W)
      → All P m
      → map_get same k m ≡ some w
      → P (k, w)
  unfolding map_get
  All-map_get k [] w h e = absurd (ground arith)
  All-map_get k ((j, u) ∷ m) w h e = found (same j k) e (All-map_get k m w h.1)
    where
      found :
          (d : Dec (j ≡ k))
          → ite d (some u) (map_get same k m) ≡ some w
          → (map_get same k m ≡ some w → P (k, w))
          → P (k, w)
      found (yes p) g r = let q : u ≡ w = ground arith in rw (← p, ← q) h.0
      found (no p) g r = r g
