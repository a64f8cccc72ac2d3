-- ===== src/Utf8/Fatal.antt =====
-- The two modes of the decoder of utf8.ts: `fatal` refuses, the other replaces.
use bare_network_inspect.Base.{
  ℕ, ◌≡◌, inl, inr, true, false, some, List, [], ◌∷◌, ◌++◌, arith, Option-cases, JsString,
}
use bare_network_inspect.Utf8.{Decoder, initial, byte, decode_from, utf8_decode}

byte-replacing :
    (d : Decoder) (b : ℕ) → (d' : Decoder) × (out : JsString) × (byte false d b ≡ some (d', out))
unfolding byte
byte-replacing d b = elim (Option-cases (byte false d b)) [
  | inl e ↦ absurd (ground arith)
  | inr ((d', out), e) ↦ (d', out, e)
]

byte-fatal :
    (d d' : Decoder) (b : ℕ) (out : JsString)
    → byte true d b ≡ some (d', out)
    → byte false d b ≡ some (d', out)
unfolding byte
byte-fatal d d' b out e = ground arith

replacing_total : (bs : List ℕ) (d : Decoder) → (s : JsString) × (decode_from false d bs ≡ some s)
unfolding decode_from
replacing_total [] d = elim (Option-cases (decode_from false d [])) [
  | inl e ↦ absurd (ground arith)
  | inr (s, e) ↦ (s, e)
]
replacing_total (b ∷ bs) d =
    let (d', out, e) = byte-replacing d b in
    let (s, k) = replacing_total bs d' in (out ++ s, ground arith)

fatal_agrees :
    (bs : List ℕ) (d : Decoder) (s : JsString)
    → decode_from true d bs ≡ some s
    → decode_from false d bs ≡ some s
unfolding decode_from
fatal_agrees [] d s e = ground arith
fatal_agrees (b ∷ bs) d s e = elim (Option-cases (byte true d b)) [
  | inl n ↦ ground arith
  | inr ((d', out), k) ↦ elim (Option-cases (decode_from true d' bs)) [
    | inl n ↦ ground arith
    | inr (r, n) ↦ ground (arith, byte-fatal d d' b out k, fatal_agrees bs d' r n)
  ]
]

-- Without `fatal` every input decodes, malformed or not.
pub decode_replacing_total : (bs : List ℕ) → (s : JsString) × (utf8_decode false bs ≡ some s)
unfolding utf8_decode
decode_replacing_total bs = replacing_total bs initial

-- What `fatal` accepts decodes to the same string without it.
pub decode_fatal_agrees :
    (bs : List ℕ) (s : JsString) → utf8_decode true bs ≡ some s → utf8_decode false bs ≡ some s
unfolding utf8_decode
decode_fatal_agrees bs s e = fatal_agrees bs initial s e
