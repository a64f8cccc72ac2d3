-- ===== src/Ulid.antt =====
-- packages/bare-protocol/src/ulid.ts: a ULID and its sixteen bytes.
pub mod Digits
pub mod Bijection
mod Tests
use bare_network_inspect.Base.{
  ℕ, zero, suc, ◌+◌, ◌*◌, ◌/◌, ◌%◌, ◌^◌, Option, none, some, List, [], ◌∷◌, map, length, get_or,
  ltb, ◌==◌, if◌then◌else◌, JsString, ascii,
}

abbrev pub crockford : JsString
crockford = ascii "0123456789ABCDEFGHJKMNPQRSTVWXYZ"

-- The entry of `DECODE_MAP` that the loop over `CROCKFORD` makes, of the part from index `i` on.
unfoldable pub index_from : JsString → ℕ → ℕ → Option ℕ
index_from [] i ch = none
index_from (x ∷ xs) i ch = let rest = index_from xs (suc i) ch in if x == ch then some i else rest

unfoldable pub decode_map : ℕ → Option ℕ
decode_map ch = index_from crockford 0 ch

-- `(v << k) | d` for each of the digits, in the base 2^k.
unfoldable pub from_base : ℕ → ℕ → List ℕ → ℕ
from_base base v [] = v
from_base base v (d ∷ ds) = from_base base (v * base + d) ds

-- The last `n` digits of `v`, before `acc`: `v & (2^k - 1)`, then `v >>= k`.
unfoldable pub to_base : ℕ → ℕ → ℕ → List ℕ → List ℕ
to_base base zero v acc = acc
to_base base (suc n) v acc = to_base base n (v / base) ((v % base) ∷ acc)

-- The digits of the characters; `none` is the Error on one that is no Crockford character.
unfoldable pub decode_chars : JsString → Option (List ℕ)
decode_chars [] = some []
decode_chars (ch ∷ s) =
    let rest = decode_chars s in
    elim (decode_map ch) [
      | none ↦ none
      | some d ↦ elim rest [ none ↦ none | some ds ↦ some (d ∷ ds) ]
    ]

-- `none` is an Error.
unfoldable pub ulid_to_bytes : JsString → Option (List ℕ)
ulid_to_bytes ulid =
    if length ulid == 26
    then elim (decode_chars ulid) [
      | none ↦ none
      | some ds ↦
          let v = from_base 32 0 ds in if ltb v (2 ^ 128) then some (to_base 256 16 v []) else none
    ]
    else none

-- `CROCKFORD[d]`.
unfoldable pub encode_char : ℕ → ℕ
encode_char d = get_or crockford d 0

unfoldable pub bytes_to_ulid : List ℕ → Option JsString
bytes_to_ulid bytes =
    if length bytes == 16
    then some (map encode_char (to_base 32 26 (from_base 256 0 bytes) []))
    else none
