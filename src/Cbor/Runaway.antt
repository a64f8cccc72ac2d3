-- ===== src/Cbor/Runaway.antt =====
-- A short frame on which the decoder of cbor.ts does as many rounds as the frame claims elements.
use bare_network_inspect.Base.{
  ℕ, zero, suc, ◌+◌, ◌^◌, ◌≤◌, ◌<◌, ◌≡◌, refl, none, some, List, [], ◌∷◌, ◌++◌, arith, length, drop,
  length-append,
}
use bare_network_inspect.Cbor.{
  Double, bytes, ok, stuck, write_head, read_len, byte_string, decode_items, decode_major,
  decode_item, decode_cbor,
}
use bare_network_inspect.Cbor.Head.{
  IsIeee, short_form, length-write_head_short, read_len-short_form, elem_at,
}
use bare_network_inspect.Cbor.RoundTrip.Scalars.{behind, dispatch}

module _ {F : Type 0} (d : Double F) (ieee : IsIeee d) where
  -- An array head for `n` elements, and a byte string whose one-byte length is cut off.
  unfoldable pub runaway : ℕ → List ℕ
  runaway n = write_head 4 n ++ (0x58 ∷ [])

  -- At position NaN every round succeeds and none makes progress.
  rounds_at_nan :
      (f g n : ℕ) (buf : List ℕ)
      → g ≤ n
      → decode_items d (decode_item d (suc f) buf) g none n ≡ stuck
  unfolding decode_items decode_item
  rounds_at_nan f zero n buf h = refl
  rounds_at_nan f (suc g) zero buf h = absurd (omega arith)
  rounds_at_nan f (suc g) (suc n) buf h = ground (arith, rounds_at_nan f g n buf (omega arith))

  -- The cut length is `undefined`, and the position behind the byte string NaN.
  cut_off :
      (f p : ℕ) (buf : List ℕ)
      → drop p buf ≡ 0x58 ∷ []
      → decode_item d (suc f) buf (some p) ≡ ok (bytes [], none)
  unfolding decode_item decode_major read_len byte_string
  cut_off f p buf e = ground (
    arith,
    elem_at buf (0x58 ∷ []) p e p 0 (omega arith),
    elem_at buf (0x58 ∷ []) p e (p + 1) 1 refl,
  )

  elements :
      (f n p : ℕ) (buf : List ℕ)
      → f ≤ n
      → drop p buf ≡ 0x58 ∷ []
      → decode_items d (decode_item d f buf) f (some p) n ≡ stuck
  unfolding decode_items
  elements zero n p buf h e = refl
  elements (suc f) zero p buf h e = absurd (omega arith)
  elements (suc f) (suc n) p buf h e =
      ground (arith, cut_off f p buf e, rounds_at_nan f f n buf (omega arith))

  array_stuck :
      (f n p : ℕ) (buf rest : List ℕ)
      → n ≤ 2 ^ 53
      → drop p buf ≡ write_head 4 n ++ rest
      → decode_items d (decode_item d f buf) f (some (p + length (write_head 4 n))) n ≡ stuck
      → decode_major d (decode_item d f buf) f buf 4 (short_form n) (p + 1) ≡ stuck
  unfolding decode_major
  array_stuck f n p buf rest h e a = ground (arith, read_len-short_form d ieee 4 n p buf rest h e)

  stuck_at : (n f : ℕ) → n ≤ 2 ^ 53 → f ≤ n → decode_cbor d f (runaway n) ≡ stuck
  unfolding runaway decode_cbor
  stuck_at n zero h k = unfold decode_item in refl
  stuck_at n (suc f) h k =
      let buf = runaway n in
      let first = dispatch d ieee f 0 buf 4 n (0x58 ∷ []) refl in
      let rest =
        elements f n (0 + length (write_head 4 n)) buf (omega arith)
          (behind 0 buf (write_head 4 n) (0x58 ∷ []) refl) in
      ground (arith, first, array_stuck f n 0 buf (0x58 ∷ []) h refl rest)

  -- For every `n` below 2 ^ 32 there is a frame of at most six bytes on which `decodeCbor` has not
  -- finished after `n` rounds, or any smaller number of rounds.
  pub decode_cbor-runaway :
      (n f : ℕ)
      → n < 2 ^ 32
      → f ≤ n
      → (length (runaway n) ≤ 6) × (decode_cbor d f (runaway n) ≡ stuck)
  decode_cbor-runaway n f h k = (
    unfold runaway in
        omega (arith, length-write_head_short 4 n h, length-append (write_head 4 n) (0x58 ∷ [])),
    stuck_at n f (omega arith) k,
  )
