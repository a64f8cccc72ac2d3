-- ===== src/Utf8/RoundTrip.antt =====
-- Strings through the encoder and the decoder of utf8.ts, and the size of what is written.
use bare_network_inspect.Base.{
  ℕ, ◌*◌, ◌≤◌, ◌<◌, ◌≡◌, refl, sym, ap, ◌∙◌, inl, inr, Bool, true, not, ◌&&◌, ◌||◌, some, [], ◌∷◌,
  append-nil, arith, if◌then◌else◌, Bool-cases, length, All, length-append, All-append, JsString,
}
use bare_network_inspect.Utf8.{
  code_point_bytes, pair_code_point, unit_code_point, is_high, is_low, utf8_encode, initial, push,
  decode_from, utf8_decode,
}
use bare_network_inspect.Utf8.Scalar.{IsScalar, decode-code_point_bytes}

abbrev pub IsUnit : ℕ → Type 0
IsUnit u = u < 0x10000

-- The string with U+FFFD for each surrogate that is not in a pair.
unfoldable pub repaired : JsString → JsString
repaired [] = []
repaired (u ∷ []) = unit_code_point u ∷ []
repaired (u ∷ v ∷ us) =
    let as_pair = u ∷ v ∷ repaired us in
    let alone = unit_code_point u ∷ repaired (v ∷ us) in
    if is_high u && is_low v then as_pair else alone

-- Every surrogate stands in a pair.
unfoldable pub well_formed : JsString → Bool
well_formed [] = true
well_formed (u ∷ []) = not (is_high u || is_low u)
well_formed (u ∷ v ∷ us) =
    let as_pair = well_formed us in
    let alone = not (is_high u || is_low u) && well_formed (v ∷ us) in
    if is_high u && is_low v then as_pair else alone

pub repaired-well_formed : (s : JsString) → well_formed s ≡ true → repaired s ≡ s
unfolding repaired well_formed
repaired-well_formed [] h = refl
repaired-well_formed (u ∷ []) h = ground arith
repaired-well_formed (u ∷ v ∷ us) h =
    ground (arith, repaired-well_formed us, repaired-well_formed (v ∷ us))

unit-IsScalar : (u : ℕ) → IsUnit u → IsScalar (unit_code_point u)
unit-IsScalar u h = ground arith

pair-IsScalar : (u v : ℕ) → (is_high u && is_low v) ≡ true → IsScalar (pair_code_point u v)
pair-IsScalar u v h = ground arith

push-unit : (u : ℕ) → IsUnit u → push (unit_code_point u) ≡ unit_code_point u ∷ []
unfolding push
push-unit u h = ground arith

push-pair : (u v : ℕ) → (is_high u && is_low v) ≡ true → push (pair_code_point u v) ≡ u ∷ v ∷ []
unfolding push
push-pair u v h = ground arith

-- Decoding what was encoded gives the string back, with U+FFFD for each lone surrogate; in fatal
-- mode too nothing is refused.
pub decode-encode :
    (fatal : Bool) (s : JsString)
    → All IsUnit s
    → utf8_decode fatal (utf8_encode s) ≡ some (repaired s)
unfolding utf8_decode utf8_encode repaired
decode-encode fatal [] h = unfold decode_from in refl
decode-encode fatal (u ∷ []) h =
    ap (λ l. decode_from fatal initial l) (sym (append-nil (code_point_bytes (unit_code_point u))))
    ∙ decode-code_point_bytes fatal [] (unit_code_point u) (unit-IsScalar u h.0)
    ∙ (unfold decode_from in ground (arith, push-unit u h.0))
decode-encode fatal (u ∷ v ∷ us) h = elim (Bool-cases (is_high u && is_low v)) [
  | inl e ↦ ground (
    arith,
    decode-code_point_bytes fatal (utf8_encode us) (pair_code_point u v) (pair-IsScalar u v e),
    decode-encode fatal us h.1.1,
    push-pair u v e,
  )
  | inr e ↦ ground (
    arith,
    decode-code_point_bytes fatal (utf8_encode (v ∷ us)) (unit_code_point u) (unit-IsScalar u h.0),
    decode-encode fatal (v ∷ us) h.1,
    push-unit u h.0,
  )
]

-- A string without lone surrogates survives the round trip.
pub decode-encode_well_formed :
    (s : JsString) → All IsUnit s → well_formed s ≡ true → utf8_decode true (utf8_encode s) ≡ some s
decode-encode_well_formed s h w = decode-encode true s h ∙ ap some (repaired-well_formed s w)

abbrev pub IsByte : ℕ → Type 0
IsByte b = b < 256

code_point_bytes-IsByte : (cp : ℕ) → cp < 0x110000 → All IsByte (code_point_bytes cp)
unfolding code_point_bytes
code_point_bytes-IsByte cp h = ground arith

length-code_point_bytes :
    (cp : ℕ)
    → (length (code_point_bytes cp) ≤ 4) × (cp < 0x10000 → length (code_point_bytes cp) ≤ 3)
unfolding code_point_bytes
length-code_point_bytes cp = ground arith

-- What the encoder writes fits the buffer of three bytes for each code unit, and each is a byte.
pub encode_fits :
    (s : JsString)
    → All IsUnit s
    → (length (utf8_encode s) ≤ length s * 3) × All IsByte (utf8_encode s)
unfolding utf8_encode
encode_fits [] h = (omega arith, tt)
encode_fits (u ∷ []) h =
    let b = code_point_bytes-IsByte (unit_code_point u) (unit-IsScalar u h.0).0 in
    ground (arith, length-code_point_bytes (unit_code_point u), unit-IsScalar u h.0)
encode_fits (u ∷ v ∷ us) h = elim (Bool-cases (is_high u && is_low v)) [
  | inl e ↦
      let p = pair_code_point u v in
      let b = code_point_bytes-IsByte p (pair-IsScalar u v e).0 in
      let r = encode_fits us h.1.1 in
      let a = All-append IsByte (code_point_bytes p) (utf8_encode us) b r.1 in
      ground (arith, length-code_point_bytes p, length-append (code_point_bytes p) (utf8_encode us))
  | inr e ↦
      let p = unit_code_point u in
      let b = code_point_bytes-IsByte p (unit-IsScalar u h.0).0 in
      let r = encode_fits (v ∷ us) h.1 in
      let a = All-append IsByte (code_point_bytes p) (utf8_encode (v ∷ us)) b r.1 in
      ground (
        arith,
        length-code_point_bytes p,
        length-append (code_point_bytes p) (utf8_encode (v ∷ us)),
        unit-IsScalar u h.0,
      )
]
