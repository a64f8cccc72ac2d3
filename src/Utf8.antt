-- ===== src/Utf8.antt =====
-- packages/bare-protocol/src/utf8.ts: the UTF-8 encoder, and the WHATWG decoder as a state machine.
-- `x >> k` is a division and `x & (2 ^ k - 1)` a remainder; an `|` of operands that share no bit is
-- their sum.
pub mod Scalar
pub mod RoundTrip
pub mod Fatal
mod Tests
use bare_network_inspect.Base.{
  ℕ, ◌+◌, ◌-◌, ◌*◌, ◌/◌, ◌%◌, ◌^◌, Bool, ◌&&◌, ◌||◌, Option, none, some, List, [], ◌∷◌, ◌++◌, ltb,
  leb, ◌==◌, if◌then◌else◌, JsString,
}

abbrev pub replacement : ℕ
replacement = 0xfffd

abbrev pub between : ℕ → ℕ → ℕ → Bool
between lo hi x = leb lo x && leb x hi

abbrev pub is_high : ℕ → Bool
is_high = between 0xd800 0xdbff

abbrev pub is_low : ℕ → Bool
is_low = between 0xdc00 0xdfff

-- The bytes of one code point.
unfoldable pub code_point_bytes : ℕ → List ℕ
code_point_bytes cp =
    if ltb cp 0x80
    then cp ∷ []
    else if ltb cp 0x800
    then (0xc0 + cp / 2 ^ 6) ∷ (0x80 + cp % 2 ^ 6) ∷ []
    else if ltb cp 0x10000
    then (0xe0 + cp / 2 ^ 12) ∷ (0x80 + cp / 2 ^ 6 % 2 ^ 6) ∷ (0x80 + cp % 2 ^ 6) ∷ []
    else (0xf0 + cp / 2 ^ 18)
      ∷ (0x80 + cp / 2 ^ 12 % 2 ^ 6)
      ∷ (0x80 + cp / 2 ^ 6 % 2 ^ 6)
      ∷ (0x80 + cp % 2 ^ 6)
      ∷ []

-- The code point of a surrogate pair.
abbrev pub pair_code_point : ℕ → ℕ → ℕ
pair_code_point hi lo = 0x10000 + (hi - 0xd800) * 2 ^ 10 + (lo - 0xdc00)

-- The code point of a unit that is not the first half of a pair.
abbrev pub unit_code_point : ℕ → ℕ
unit_code_point u = if is_high u || is_low u then replacement else u

-- The loop over the code units, a pair of surrogates at once.
unfoldable pub utf8_encode : JsString → List ℕ
utf8_encode [] = []
utf8_encode (u ∷ []) = code_point_bytes (unit_code_point u)
utf8_encode (u ∷ v ∷ us) =
    let as_pair = code_point_bytes (pair_code_point u v) ++ utf8_encode us in
    let alone = code_point_bytes (unit_code_point u) ++ utf8_encode (v ∷ us) in
    if is_high u && is_low v then as_pair else alone

-- The variables of the decoder's loop.
pub record Decoder : Type 0 where
  pub needed : ℕ
  pub seen : ℕ
  pub cp : ℕ
  pub lower : ℕ
  pub upper : ℕ

abbrev pub initial : Decoder
initial = record { needed = 0; seen = 0; cp = 0; lower = 0x80; upper = 0xbf }

-- The units that `push` appends.
unfoldable pub push : ℕ → List ℕ
push cp =
    if leb cp 0xffff
    then cp ∷ []
    else (0xd800 + (cp - 0x10000) / 2 ^ 10) ∷ (0xdc00 + (cp - 0x10000) % 2 ^ 10) ∷ []

-- What one byte gives: the next state and the units pushed; `none` is the TypeError.
abbrev pub Outcome : Type 0
Outcome = Option (Decoder × JsString)

unfoldable pub bad : Bool → Decoder → Outcome
unfolding push
bad fatal d = if fatal then none else some (d, push replacement)

-- The loop body at `needed === 0`.
unfoldable pub lead : Bool → Decoder → ℕ → Outcome
unfolding push bad
lead fatal d b =
    if leb b 0x7f
    then some (d, push b)
    else if between 0xc2 0xdf b
    then some (record d { needed = 1; cp = b % 2 ^ 5 }, [])
    else if between 0xe0 0xef b
    then some (
      record d {
        lower = if b == 0xe0 then 0xa0 else d.lower;
        upper = if b == 0xed then 0x9f else d.upper;
        needed = 2;
        cp = b % 2 ^ 4;
      },
      [],
    )
    else if between 0xf0 0xf4 b
    then some (
      record d {
        lower = if b == 0xf0 then 0x90 else d.lower;
        upper = if b == 0xf4 then 0x8f else d.upper;
        needed = 3;
        cp = b % 2 ^ 3;
      },
      [],
    )
    else bad fatal d

-- Outputs in sequence.
unfoldable pub and_then : JsString → Outcome → Outcome
and_then out none = none
and_then out (some (d, more)) = some (d, out ++ more)

-- The loop body. A byte out of range resets the decoder and is read again as a lead byte, which
-- is the round that `i--` causes.
unfoldable pub byte : Bool → Decoder → ℕ → Outcome
unfolding push bad lead and_then
byte fatal d b =
    if d.needed == 0
    then lead fatal d b
    else if ltb b d.lower || ltb d.upper b
    then if fatal then none else and_then (push replacement) (lead fatal initial b)
    else let cp = d.cp * 2 ^ 6 + b % 2 ^ 6 in
      if d.seen + 1 == d.needed
      then some (initial, push cp)
      else some (record d { lower = 0x80; upper = 0xbf; cp = cp; seen = d.seen + 1 }, [])

-- The loop over the bytes, and the check for a truncated sequence behind it.
unfoldable pub decode_from : Bool → Decoder → List ℕ → Option JsString
decode_from fatal d [] =
    if d.needed == 0 then some [] else if fatal then none else some (push replacement)
decode_from fatal d (b ∷ bs) = elim (byte fatal d b) [
  | none ↦ none
  | some (d', out) ↦ elim (decode_from fatal d' bs) [ none ↦ none | some rest ↦ some (out ++ rest) ]
]

unfoldable pub utf8_decode : Bool → List ℕ → Option JsString
utf8_decode fatal bytes = decode_from fatal initial bytes
