-- ===== src/Base/Text.antt =====
-- JavaScript strings: the sequence of UTF-16 code units that `charCodeAt` returns.
use Prim.Native.Nat.{ℕ}
use Prim.Native.Char.{code}
use Prim.Native.String.{String}
use mathlib.Core.List.{List, [], ◌∷◌}
use mathlib.Core.Path.{◌≡◌, refl}
use mathlib.Core.Logic.{◌≢◌}
use native.Mathlib.Omega.{arith}
use native.Mathlib.Decide.{ℕ_discrete}

abbrev pub JsString : Type 0
JsString = List ℕ

cons_eq : {x y : ℕ} {xs ys : JsString} → x ≡ y → xs ≡ ys → x ∷ xs ≡ y ∷ ys
cons_eq p q = cc

head_ne : {x y : ℕ} {xs ys : JsString} → x ≢ y → x ∷ xs ≢ y ∷ ys
head_ne h e = ground arith

tail_ne : {x y : ℕ} {xs ys : JsString} → xs ≢ ys → x ∷ xs ≢ y ∷ ys
tail_ne h e = ground arith

nil_ne : {y : ℕ} {ys : JsString} → [] ≢ y ∷ ys
nil_ne e = cc

cons_ne : {x : ℕ} {xs : JsString} → x ∷ xs ≢ []
cons_ne e = cc

-- `===` on strings.
unfoldable pub same : Discrete JsString
unfolding ℕ_discrete cons_eq head_ne tail_ne nil_ne cons_ne
same [] [] = yes refl
same [] (y ∷ ys) = no nil_ne
same (x ∷ xs) [] = no cons_ne
same (x ∷ xs) (y ∷ ys) = elim (ℕ_discrete x y) [
  | yes p ↦ elim (same xs ys) [ yes q ↦ yes (cons_eq p q) | no q ↦ no (tail_ne q) ]
  | no p ↦ no (head_ne p)
]

-- The code units of an ASCII literal.
abbrev pub ascii : String → JsString
ascii String.[] = []
ascii (String.◌∷◌ c s) = code c ∷ ascii s
