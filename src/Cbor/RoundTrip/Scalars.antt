-- ===== src/Cbor/RoundTrip/Scalars.antt =====
-- One item of cbor.ts that holds no other: written by the encoder and read by the decoder.
use mathlib.Core.Path.{ap₂}
use bare_network_inspect.Base.{
  ℕ, suc, ◌+◌, ◌^◌, ◌≤◌, ◌<◌, ◌≡◌, sym, ap, ◌∙◌, some, List, [], ◌∷◌, ◌++◌, arith, ◌==◌,
  if◌then◌else◌, length, take, drop, length-append, length-drop, take-append_length,
  drop-append_length, drop-drop, JsString,
}
use bare_network_inspect.Base.Int.{pos, negsuc}
use bare_network_inspect.Utf8.{utf8_encode}
use bare_network_inspect.Utf8.RoundTrip.{decode-encode_well_formed}
use bare_network_inspect.Cbor.{
  Double, null, boolean, int, float, text, bytes, ok, write_head, unsigned, negative, byte_string,
  text_string, simple, decode_major, decode_item,
}
use bare_network_inspect.Cbor.Head.{
  IsIeee, short_form, short_form-lt, head_byte, length-write_head, elem_at, read_len-short_form,
}
use bare_network_inspect.Cbor.RoundTrip.Plain.{IsText}

pub behind : (p : ℕ) (buf xs ys : List ℕ) → drop p buf ≡ xs ++ ys → drop (p + length xs) buf ≡ ys
behind p buf xs ys e =
    sym (drop-drop (length xs) p buf) ∙ ap (drop (length xs)) e ∙ drop-append_length xs ys

-- What stands at a position ends inside the buffer.
bounds :
    (p : ℕ) (buf xs b rest : List ℕ)
    → drop p buf ≡ xs ++ (b ++ rest)
    → 0 < length xs
    → p + length xs + length b ≤ length buf
bounds p buf xs b rest e h =
    let x = ap {B = ℕ} length e in
    omega (arith, x, length-drop p buf, length-append xs (b ++ rest), length-append b rest)

module _ {F : Type 0} (d : Double F) (ieee : IsIeee d) (f p : ℕ) (buf : List ℕ) where
  -- The head byte selects the major type and the form.
  pub dispatch :
      (major n : ℕ) (rest : List ℕ)
      → drop p buf ≡ write_head major n ++ rest
      → decode_item d (suc f) buf (some p)
        ≡ decode_major d (decode_item d f buf) f buf major (short_form n) (p + 1)
  unfolding decode_item
  dispatch major n rest e =
      let b =
        elem_at buf (write_head major n ++ rest) p e p 0 (omega arith) ∙ head_byte major n rest in
      let s = short_form-lt n in
      rw (b, decode_item)
        (ap₂ (λ m a. decode_major d (decode_item d f buf) f buf m a (p + 1)) (omega arith)
          (omega arith))

  pub decode-int_pos :
      (n : ℕ) (rest : List ℕ)
      → n ≤ 2 ^ 53
      → drop p buf ≡ write_head 0 n ++ rest
      → decode_item d (suc f) buf (some p) ≡ ok (int (pos n), some (p + length (write_head 0 n)))
  unfolding decode_major unsigned
  decode-int_pos n rest h e =
      dispatch 0 n rest e ∙ ground (arith, read_len-short_form d ieee 0 n p buf rest h e)

  pub decode-int_negsuc :
      (n : ℕ) (rest : List ℕ)
      → n < 2 ^ 53
      → drop p buf ≡ write_head 1 n ++ rest
      → decode_item d (suc f) buf (some p) ≡ ok (int (negsuc n), some (p + length (write_head 1 n)))
  unfolding decode_major negative
  decode-int_negsuc n rest h e =
      dispatch 1 n rest e
      ∙ ground (
        arith,
        read_len-short_form d ieee 1 n p buf rest (omega arith) e,
        ieee.exact (n + 1) (omega arith),
      )

  pub decode-bytes :
      (b rest : List ℕ)
      → length b ≤ 2 ^ 53
      → drop p buf ≡ write_head 2 (length b) ++ (b ++ rest)
      → decode_item d (suc f) buf (some p)
        ≡ ok (bytes b, some (p + length (write_head 2 (length b) ++ b)))
  unfolding decode_major byte_string
  decode-bytes b rest h e =
      let n = length b in
      let q = p + length (write_head 2 n) in
      let here = behind p buf (write_head 2 n) (b ++ rest) e in
      let there = bounds p buf (write_head 2 n) b rest e (length-write_head 2 n).0 in
      dispatch 2 n (b ++ rest) e
      ∙ ground (
        arith,
        read_len-short_form d ieee 2 n p buf (b ++ rest) h e,
        there,
        ap (take n) here ∙ take-append_length b rest,
        length-append (write_head 2 n) b,
      )

  pub decode-text :
      (s : JsString) (rest : List ℕ)
      → IsText s
      → drop p buf ≡ write_head 3 (length (utf8_encode s)) ++ (utf8_encode s ++ rest)
      → decode_item d (suc f) buf (some p)
        ≡ ok (text s, some (p + length (write_head 3 (length (utf8_encode s)) ++ utf8_encode s)))
  unfolding decode_major text_string
  decode-text s rest t e =
      let b : List ℕ = utf8_encode s in
      let n = length b in
      let q = p + length (write_head 3 n) in
      let here = behind p buf (write_head 3 n) (b ++ rest) e in
      dispatch 3 n (b ++ rest) e
      ∙ ground (
        arith,
        read_len-short_form d ieee 3 n p buf (b ++ rest) t.short e,
        bounds p buf (write_head 3 n) b rest e (length-write_head 3 n).0,
        ap (take n) here ∙ take-append_length b rest,
        length-append (write_head 3 n) b,
        decode-encode_well_formed s t.units t.paired,
      )

  pub decode-float :
      (x : F) (rest : List ℕ)
      → drop p buf ≡ 0xfb ∷ (d.set_float64 x ++ rest)
      → decode_item d (suc f) buf (some p) ≡ ok (float x, some (p + 9))
  unfolding decode_item decode_major simple
  decode-float x rest e =
      let b : List ℕ = d.set_float64 x in
      let here = behind p buf (0xfb ∷ []) (b ++ rest) e in
      let eight = ieee.length-set x in
      ground (
        arith,
        elem_at buf (0xfb ∷ (b ++ rest)) p e p 0 (omega arith),
        bounds p buf (0xfb ∷ []) b rest e (omega arith),
        eight,
        ap (take (length b)) here ∙ take-append_length b rest,
        ieee.get-set x,
      )

  pub decode-simple :
      (b : ℕ) (rest : List ℕ)
      → drop p buf ≡ b ∷ rest
      → 0xf4 ≤ b
      → b ≤ 0xf6
      → decode_item d (suc f) buf (some p)
        ≡ ok (if b == 0xf6 then null else boolean (b == 0xf5), some (p + 1))
  unfolding decode_item decode_major simple
  decode-simple b rest e h k = ground (arith, elem_at buf (b ∷ rest) p e p 0 (omega arith))
