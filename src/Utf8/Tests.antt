-- ===== src/Utf8/Tests.antt =====
-- Runs of the codec of utf8.ts.
use bare_network_inspect.Base.{◌≡◌, refl, true, false, none, some, [], ◌∷◌, arith, JsString}
use bare_network_inspect.Utf8.{
  utf8_encode, utf8_decode, code_point_bytes, decode_from, byte, replacement,
}
use bare_network_inspect.Utf8.RoundTrip.{
  repaired, well_formed, decode-encode, decode-encode_well_formed,
}
use bare_network_inspect.Utf8.Fatal.{decode_replacing_total}

-- "é", an astral character, and a lone high surrogate.
abbrev mixed : JsString
mixed = 0xe9 ∷ 0xd83d ∷ 0xde00 ∷ 0xd800 ∷ []

encoded : utf8_encode mixed ≡ 0xc3 ∷ 0xa9 ∷ 0xf0 ∷ 0x9f ∷ 0x98 ∷ 0x80 ∷ 0xef ∷ 0xbf ∷ 0xbd ∷ []
unfolding utf8_encode code_point_bytes
encoded = refl

-- An overlong form is refused, or replaced byte by byte.
overlong :
    (utf8_decode true (0xc0 ∷ 0xaf ∷ []) ≡ none)
    × (utf8_decode false (0xc0 ∷ 0xaf ∷ []) ≡ some (replacement ∷ replacement ∷ []))
unfolding utf8_decode decode_from byte
overlong = (refl, refl)

-- A truncated sequence is one replacement, and the byte that broke it is read again.
reread : utf8_decode false (0xe2 ∷ 0x82 ∷ 0x41 ∷ []) ≡ some (replacement ∷ 0x41 ∷ [])
unfolding utf8_decode decode_from byte
reread = refl

decode-encode_example : utf8_decode true (utf8_encode mixed) ≡ some (repaired mixed)
decode-encode_example = decode-encode true mixed (omega arith)

decode-encode_well_formed_example :
    utf8_decode true (utf8_encode (0xd83d ∷ 0xde00 ∷ [])) ≡ some (0xd83d ∷ 0xde00 ∷ [])
unfolding well_formed
decode-encode_well_formed_example =
    decode-encode_well_formed (0xd83d ∷ 0xde00 ∷ []) (omega arith) refl

decode_replacing_total_example : (s : JsString) × (utf8_decode false (0xff ∷ []) ≡ some s)
decode_replacing_total_example = decode_replacing_total (0xff ∷ [])
