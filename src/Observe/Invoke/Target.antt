-- ===== src/Observe/Invoke/Target.antt =====
-- The target that packages/bare-observe/src/observe.ts finds for the name of a logged method.
use bare_network_inspect.Base.{
  ◌<◌, ◌≡◌, ◌≢◌, refl, arith, ◌⊎◌, inl, inr, none, some, List, [], ◌∷◌, ◌++◌, length, JsString, All,
}
use bare_network_inspect.Observe.Invoke.{
  split_dot, split_method, endpoint_of, Op, wrap, called, inbound,
}

abbrev pub HasNoDot : JsString → Type 0
HasNoDot s = All (λ ch. ch ≢ 46) s

-- `ns` or `ns.m`, where neither part has a dot and `m` is not empty.
abbrev pub IsOneDot : JsString → Type 0
IsOneDot method =
    HasNoDot method
    ⊎ ((ns m : JsString) × HasNoDot ns × HasNoDot m × (0 < length m) × (method ≡ ns ++ (46 ∷ m)))

-- Each call of the app is on a function with such a name.
abbrev pub AreOneDot : {V : Type 0} → List (Op V) → Type 0
AreOneDot [] = Unit {0}
AreOneDot (wrap ∷ ops) = AreOneDot ops
AreOneDot (called endpoint args result ∷ ops) = IsOneDot endpoint × AreOneDot ops
AreOneDot (inbound msg ∷ ops) = AreOneDot ops

split_dot-none : (s : JsString) → HasNoDot s → split_dot s ≡ (s, none)
unfolding split_dot
split_dot-none [] h = refl
split_dot-none (ch ∷ s) h = let no = h.0 in ground (arith, split_dot-none s h.1)

split_dot-some : (ns m : JsString) → HasNoDot ns → split_dot (ns ++ (46 ∷ m)) ≡ (ns, some m)
unfolding split_dot
split_dot-some [] m h = refl
split_dot-some (ch ∷ ns) m h = let no = h.0 in ground (arith, split_dot-some ns m h.1)

-- Of such a name nothing is lost.
pub endpoint_of-split_method :
    (method : JsString) → IsOneDot method → endpoint_of (split_method method) ≡ method
unfolding split_method endpoint_of
endpoint_of-split_method method (inl h) = rw (split_dot-none method h) refl
endpoint_of-split_method method (inr (ns, m, a, b, c, e)) =
    rw (e, split_dot-some ns m a, split_dot-none m b) (ground arith)
