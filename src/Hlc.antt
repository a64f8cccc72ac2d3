-- ===== src/Hlc.antt =====
-- packages/bare-probe/clock/hlc.ts: the hybrid logical clock that orders the timeline.
-- Physical times and counters are whole numbers below 1e21, which print in decimal digits. The
-- parameter `number` is the host's `Number` on a string, with `none` for a result that is not finite.
-- The reading of the wall clock is the argument `pt` of `send` and `recv`.
pub mod Order
pub mod Wire
mod Tests
use bare_network_inspect.Base.{
  ◌>>=◌, ℕ, zero, suc, ◌+◌, ◌/◌, ◌%◌, max, Bool, true, false, Option, none, some, [], ◌∷◌, ◌++◌,
  ltb, ◌&&◌, ◌==◌, if◌then◌else◌, JsString,
}
use bare_network_inspect.Base.Int.{ℤ, pos, negsuc, sub_ℕ}

pub record HlcTime : Type 0 where
  pub l : ℕ
  pub c : ℕ
  pub id : JsString

-- The decimal digits of `n`, before `acc`, on fuel that is more than their number.
unfoldable pub digits : ℕ → ℕ → JsString → JsString
digits zero n acc = acc
digits (suc fuel) n acc =
    let rest = digits fuel (n / 10) ((48 + n % 10) ∷ acc) in
    if ltb n 10 then (48 + n) ∷ acc else rest

-- A number in a template string.
unfoldable pub decimal : ℕ → JsString
decimal n = digits (suc n) n []

unfoldable pub serialize_hlc : HlcTime → JsString
serialize_hlc t = decimal t.l ++ (58 ∷ (decimal t.c ++ (58 ∷ t.id)))

-- What stands before and behind the first ':'; `none` where `indexOf` returns -1.
unfoldable pub split_colon : JsString → Option (JsString × JsString)
split_colon [] = none
split_colon (ch ∷ s) =
    let rest = split_colon s in
    if ch == 58 then some ([], s) else elim rest [ none ↦ none | some (a, b) ↦ some (ch ∷ a, b) ]

-- `x.id < y.id`, by code units.
unfoldable pub str_ltb : JsString → JsString → Bool
str_ltb xs [] = false
str_ltb [] (y ∷ ys) = true
str_ltb (x ∷ xs) (y ∷ ys) =
    let rest = str_ltb xs ys in if ltb x y then true else if x == y then rest else false

-- `compareHlc` on two decomposed values: the first of three differences that is not 0.
unfoldable pub compare_hlc : HlcTime → HlcTime → ℤ
compare_hlc x y =
    if x.l == y.l
    then if x.c == y.c
      then if str_ltb x.id y.id then negsuc 0 else if str_ltb y.id x.id then pos 1 else pos 0
      else sub_ℕ x.c y.c
    else sub_ℕ x.l y.l

-- `HybridLogicalClock.send`, and `update`: the clock's state is the last snapshot.
unfoldable pub send : HlcTime → ℕ → HlcTime
send k pt = let l = max k.l pt in record k { l = l; c = if l == k.l then k.c + 1 else 0 }

-- The counter that `recv` leaves, of the new physical part `l`.
unfoldable pub recv_counter : HlcTime → HlcTime → ℕ → ℕ
recv_counter k m l =
    if (l == k.l) && (l == m.l)
    then max k.c m.c + 1
    else if l == k.l
    then k.c + 1
    else if l == m.l
    then m.c + 1
    else 0

-- `HybridLogicalClock.recv` of a decomposed value.
unfoldable pub recv : HlcTime → HlcTime → ℕ → HlcTime
recv k m pt = let l = max (max k.l m.l) pt in record k { l = l; c = recv_counter k m l }

-- The constructor's state.
unfoldable pub new : JsString → HlcTime
new node_id = record { l = 0; c = 0; id = node_id }

-- The last check of `parseHlc`: the node id is not empty.
unfoldable pub named : ℕ → ℕ → JsString → Option HlcTime
named l c [] = none
named l c (x ∷ xs) = some (record { l = l; c = c; id = x ∷ xs })

module _ (number : JsString → Option ℕ) where
  -- `parseHlc`; `none` is its Error.
  unfoldable pub parse_hlc : JsString → Option HlcTime
  parse_hlc s = do
    (a, rest) ← split_colon s
    (b, id) ← split_colon rest
    l ← number a
    c ← number b
    named l c id

  -- `recv` of the wire form.
  unfoldable pub recv_wire : HlcTime → JsString → ℕ → Option HlcTime
  recv_wire k s pt = do m ← parse_hlc s; some (recv k m pt)
