-- ===== src/Correlator/Awaited.antt =====
-- The peers that a request of correlator.ts awaits, while responses come in.
use bare_network_inspect.Base.{
  ℕ, ◌+◌, ◌<◌, ◌≡◌, refl, ap, ◌∙◌, Bool, true, false, not, ◌&&◌, List, [], ◌∷◌, length, ite,
  JsString, same, set_has, set_add, set_delete, set_has-add, set_has-delete, arith, if◌then◌else◌,
}
use bare_network_inspect.Correlator.{set_of}

-- What is left of the awaited peers when those of `rs` have answered.
unfoldable pub silent : List JsString → List (JsString × ℕ) → List JsString
silent awaiting [] = awaiting
silent awaiting ((peer, t) ∷ rs) = silent (set_delete same peer awaiting) rs

-- Did `peer` answer?
unfoldable pub answered : JsString → List (JsString × ℕ) → Bool
answered q [] = false
answered q ((peer, t) ∷ rs) = ite (same peer q) true (answered q rs)

pub set_has-silent :
    (q : JsString) (awaiting : List JsString) (rs : List (JsString × ℕ))
    → set_has same q (silent awaiting rs) ≡ (set_has same q awaiting && not (answered q rs))
unfolding silent answered
set_has-silent q awaiting [] = ground arith
set_has-silent q awaiting ((peer, t) ∷ rs) = ground (
  arith,
  set_has-silent q (set_delete same peer awaiting) rs,
  set_has-delete same peer q awaiting,
)

pub set_has-set_of :
    (q : JsString) (s peers : List JsString)
    → set_has same q (set_of s peers) ≡ (if set_has same q s then true else set_has same q peers)
unfolding set_of set_has
set_has-set_of q s [] = ground arith
set_has-set_of q s (p ∷ ps) =
    ground (arith, set_has-set_of q (set_add same p s) ps, set_has-add same p q s)

pub set_has-ne_nil : (q : JsString) (s : List JsString) → set_has same q s ≡ true → 0 < length s
unfolding set_has
set_has-ne_nil q [] h = cc
set_has-ne_nil q (x ∷ s) h = omega arith

pub awaiting-after :
    (x : JsString) (peers : List JsString) (rs : List (JsString × ℕ))
    → set_has same x (silent (set_of [] peers) rs) ≡ (set_has same x peers && not (answered x rs))
awaiting-after x peers rs =
    set_has-silent x (set_of [] peers) rs
    ∙ ap (λ b. b && not (answered x rs)) (unfold set_has in set_has-set_of x [] peers)

-- The responses of peers that are not awaited, since they are no peers of the fan-out or have answered.
unfoldable pub strays : List JsString → List (JsString × ℕ) → ℕ
strays awaiting [] = 0
strays awaiting ((peer, t) ∷ rs) =
    let rest = strays (set_delete same peer awaiting) rs in
    if set_has same peer awaiting then rest else rest + 1

-- A set has each element once.
abbrev IsSetList : List JsString → Type 0
IsSetList [] = Unit {0}
IsSetList (x ∷ s) = (set_has same x s ≡ false) × IsSetList s

IsSetList-add : (x : JsString) (s : List JsString) → IsSetList s → IsSetList (set_add same x s)
unfolding set_add set_has
IsSetList-add x [] d = (refl, tt)
IsSetList-add x (y ∷ s) d = ground (arith, IsSetList-add x s, set_has-add same x y s)

IsSetList-delete :
    (x : JsString) (s : List JsString) → IsSetList s → IsSetList (set_delete same x s)
unfolding set_delete
IsSetList-delete x [] d = tt
IsSetList-delete x (y ∷ s) d = ground (arith, IsSetList-delete x s, set_has-delete same x y s)

IsSetList-set_of : (s peers : List JsString) → IsSetList s → IsSetList (set_of s peers)
unfolding set_of
IsSetList-set_of s [] d = d
IsSetList-set_of s (p ∷ ps) d = IsSetList-set_of (set_add same p s) ps (IsSetList-add p s d)

length-delete_none :
    (x : JsString) (s : List JsString)
    → set_has same x s ≡ false
    → length (set_delete same x s) ≡ length s
unfolding set_delete set_has
length-delete_none x [] h = refl
length-delete_none x (y ∷ s) h = ground (arith, length-delete_none x s)

length-delete :
    (x : JsString) (s : List JsString)
    → IsSetList s
    → set_has same x s ≡ true
    → length (set_delete same x s) + 1 ≡ length s
unfolding set_delete set_has
length-delete x [] d h = absurd (ground arith)
length-delete x (y ∷ s) d h = ground (arith, length-delete x s, length-delete_none x s)

length-silent :
    (awaiting : List JsString) (rs : List (JsString × ℕ))
    → IsSetList awaiting
    → length (silent awaiting rs) + length rs ≡ length awaiting + strays awaiting rs
unfolding silent strays
length-silent awaiting [] d = omega arith
length-silent awaiting ((peer, t) ∷ rs) d = ground (
  arith,
  length-silent (set_delete same peer awaiting) rs (IsSetList-delete peer awaiting d),
  length-delete peer awaiting d,
  length-delete_none peer awaiting,
)

pub length-silent-set_of :
    (peers : List JsString) (rs : List (JsString × ℕ))
    → length (silent (set_of [] peers) rs) + length rs
      ≡ length (set_of [] peers) + strays (set_of [] peers) rs
length-silent-set_of peers rs = length-silent (set_of [] peers) rs (IsSetList-set_of [] peers tt)
