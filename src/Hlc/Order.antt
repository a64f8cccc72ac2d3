-- ===== src/Hlc/Order.antt =====
-- The order of the hybrid logical clocks of hlc.ts.
use bare_network_inspect.Base.{
  ℕ, ◌<◌, ◌≡◌, refl, sym, ap, ◌∙◌, ◌⊎◌, ◌↔◌, true, false, [], ◌∷◌, JsString, arith,
}
use bare_network_inspect.Base.Int.{pos, neg_part, pos_part}
use bare_network_inspect.Hlc.{HlcTime, str_ltb, compare_hlc, send, recv, recv_counter}

-- `a` comes before `b` in the timeline, whatever their nodes.
abbrev pub Precedes : HlcTime → HlcTime → Type 0
Precedes a b = (a.l < b.l) ⊎ ((a.l ≡ b.l) × (a.c < b.c))

pub send-Precedes : (k : HlcTime) (pt : ℕ) → Precedes k (send k pt)
unfolding send
send-Precedes k pt = ground arith

pub recv-Precedes : (k m : HlcTime) (pt : ℕ) → Precedes k (recv k m pt)
unfolding recv recv_counter
recv-Precedes k m pt = ground arith

pub recv-Precedes_remote : (k m : HlcTime) (pt : ℕ) → Precedes m (recv k m pt)
unfolding recv recv_counter
recv-Precedes_remote k m pt = ground arith

pub Precedes-trans : (a b c : HlcTime) → Precedes a b → Precedes b c → Precedes a c
Precedes-trans a b c p q = ground arith

-- The comparator puts `a` first.
abbrev pub Before : HlcTime → HlcTime → Type 0
Before a b = 0 < neg_part (compare_hlc a b)

pub Precedes-Before : (a b : HlcTime) → Precedes a b → Before a b
unfolding compare_hlc
Precedes-Before a b p = ground arith

-- What the code's clocks let one know: an event of a clock comes after the clock's last one, and the
-- receipt of a message after its sending.
pub data HappensBefore : HlcTime → HlcTime → Type 0 where
  sent : (k : HlcTime) (pt : ℕ) → HappensBefore k (send k pt)
  received : (k m : HlcTime) (pt : ℕ) → HappensBefore k (recv k m pt)
  delivered : (k m : HlcTime) (pt : ℕ) → HappensBefore m (recv k m pt)
  chain : (a b c : HlcTime) → HappensBefore a b → HappensBefore b c → HappensBefore a c

HappensBefore-Precedes : (a b : HlcTime) → HappensBefore a b → Precedes a b
HappensBefore-Precedes _ _ (sent k pt) = send-Precedes k pt
HappensBefore-Precedes _ _ (received k m pt) = recv-Precedes k m pt
HappensBefore-Precedes _ _ (delivered k m pt) = recv-Precedes_remote k m pt
HappensBefore-Precedes _ _ (chain a b c p q) =
    Precedes-trans a b c (HappensBefore-Precedes a b p) (HappensBefore-Precedes b c q)

-- The comparator orders causes before effects, whatever the wall clocks read: `a` comes before `b`
-- when a chain of sends and receipts, each on any clock at any reading, leads from `a` to `b`.
pub HappensBefore-Before : (a b : HlcTime) → HappensBefore a b → Before a b
HappensBefore-Before a b h = Precedes-Before a b (HappensBefore-Precedes a b h)

str_ltb_irrefl : (x : JsString) → str_ltb x x ≡ false
unfolding str_ltb
str_ltb_irrefl [] = refl
str_ltb_irrefl (a ∷ x) = ground (arith, str_ltb_irrefl x)

str_ltb_asym : (x y : JsString) → str_ltb x y ≡ true → str_ltb y x ≡ false
unfolding str_ltb
str_ltb_asym x [] h = ground arith
str_ltb_asym [] (b ∷ y) h = refl
str_ltb_asym (a ∷ x) (b ∷ y) h = ground (arith, str_ltb_asym x y)

str_ltb_trans : (x y z : JsString) → str_ltb x y ≡ true → str_ltb y z ≡ true → str_ltb x z ≡ true
unfolding str_ltb
str_ltb_trans x [] z h k = ground arith
str_ltb_trans x (b ∷ y) [] h k = ground arith
str_ltb_trans [] (b ∷ y) (c ∷ z) h k = refl
str_ltb_trans (a ∷ x) (b ∷ y) (c ∷ z) h k = ground (arith, str_ltb_trans x y z)

str_ltb_eq : (x y : JsString) → str_ltb x y ≡ false → str_ltb y x ≡ false → x ≡ y
unfolding str_ltb
str_ltb_eq [] [] h k = refl
str_ltb_eq [] (b ∷ y) h k = ground arith
str_ltb_eq (a ∷ x) [] h k = ground arith
str_ltb_eq (a ∷ x) (b ∷ y) h k = ground (arith, str_ltb_eq x y)

-- The order that the comparator decides.
abbrev pub Earlier : HlcTime → HlcTime → Type 0
Earlier a b = Precedes a b ⊎ ((a.l ≡ b.l) × (a.c ≡ b.c) × (str_ltb a.id b.id ≡ true))

Before-Earlier : (a b : HlcTime) → Before a b → Earlier a b
unfolding compare_hlc
Before-Earlier a b h = ground arith

Earlier-Before : (a b : HlcTime) → Earlier a b → Before a b
unfolding compare_hlc
Earlier-Before a b h = ground arith

Earlier-trans : (a b c : HlcTime) → Earlier a b → Earlier b c → Earlier a c
Earlier-trans a b c p q = ground (arith, str_ltb_trans a.id b.id c.id)

-- The order in which the comparator sorts is transitive, node ids included.
pub Before-trans : (a b c : HlcTime) → Before a b → Before b c → Before a c
Before-trans a b c p q =
    Earlier-Before a c (Earlier-trans a b c (Before-Earlier a b p) (Before-Earlier b c q))

compare_hlc_flip : (a b : HlcTime) → pos_part (compare_hlc b a) ≡ neg_part (compare_hlc a b)
unfolding compare_hlc
compare_hlc_flip a b = ground (arith, str_ltb_asym a.id b.id, str_ltb_asym b.id a.id)

fields_eq : (a b : HlcTime) → a.l ≡ b.l → a.c ≡ b.c → a.id ≡ b.id → a ≡ b
fields_eq a b p q r = cc

compare_hlc_eq : (a b : HlcTime) → compare_hlc a b ≡ pos 0 → a ≡ b
unfolding compare_hlc
compare_hlc_eq a b h = ground (arith, fields_eq a b, str_ltb_eq a.id b.id)

compare_hlc_refl : (a : HlcTime) → compare_hlc a a ≡ pos 0
unfolding compare_hlc
compare_hlc_refl a = ground (arith, str_ltb_irrefl a.id)

-- The comparator is a comparator: its sign flips with its arguments, so that `b` is after `a` just
-- when `a` is before `b`, and it is 0 for equal values and for no others.
pub compare_hlc_antisymm :
    (a b : HlcTime)
    → (pos_part (compare_hlc b a) ≡ neg_part (compare_hlc a b))
      × ((compare_hlc a b ≡ pos 0) ↔ (a ≡ b))
compare_hlc_antisymm a b = (
  compare_hlc_flip a b,
  (compare_hlc_eq a b, λ e. ap (compare_hlc a) (sym e) ∙ compare_hlc_refl a),
)
