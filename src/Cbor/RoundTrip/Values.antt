-- ===== src/Cbor/RoundTrip/Values.antt =====
-- Every value of cbor.ts that the wire carries: decoding what was encoded gives it back.
use mathlib.Core.Path.{ap₂}
use bare_network_inspect.Base.{
  ℕ, zero, suc, ◌+◌, ◌*◌, ◌^◌, ◌≤◌, ◌<◌, ◌≡◌, refl, sym, ap, ◌∙◌, ◌≢◌, if_neg, true, false, some,
  List, [], ◌++◌, append-nil, append_assoc, arith, length, drop, length-append, JsString, same,
  ascii,
}
use bare_network_inspect.Base.Int.{pos, negsuc}
use bare_network_inspect.Utf8.{utf8_encode}
use bare_network_inspect.Cbor.{
  Double, Cbor, null, undefined, boolean, int, float, text, bytes, array, object, Items, nil, cons,
  Fields, end, field, ok, write_head, count_items, count_fields, put_field, set_property,
  decode_items, decode_fields, decode_major, decode_item, decode_cbor, encode_item, encode_items,
  encode_fields, encode_cbor,
}
use bare_network_inspect.Cbor.Head.{IsIeee, short_form, length-write_head, read_len-short_form}
use bare_network_inspect.Cbor.RoundTrip.Plain.{
  has_key, append_fields, Fresh, IsPlain, ArePlain, HasPlain, need, need_items, need_fields,
  append_fields-put,
}
use bare_network_inspect.Cbor.RoundTrip.Scalars.{
  behind, dispatch, decode-int_pos, decode-int_negsuc, decode-bytes, decode-text, decode-float,
  decode-simple,
}

module _ {F : Type 0} (d : Double F) (ieee : IsIeee d) where
  append_fields-nil : (acc : Fields F) → append_fields acc end ≡ acc
  unfolding append_fields
  append_fields-nil end = refl
  append_fields-nil (field k v fs) = ap (field k v) (append_fields-nil fs)

  regroup : (a b c e r : List ℕ) → (a ++ (b ++ (c ++ e))) ++ r ≡ a ++ (b ++ (c ++ (e ++ r)))
  regroup a b c e r = simp append_assoc

  set_property-fresh :
      (acc : Fields F) (k : JsString) (v : Cbor F)
      → k ≢ ascii "__proto__"
      → set_property acc k v ≡ put_field acc k v
  unfolding set_property
  set_property-fresh acc k v h = if_neg (same k (ascii "__proto__")) h _ _

  need_positive : (v : Cbor F) → 0 < need v
  unfolding need
  need_positive null = omega arith
  need_positive (array xs) = omega arith
  need_positive (object fs) = omega arith
  need_positive _ = omega arith

  count-need_items : (xs : Items F) → count_items xs < need_items xs
  unfolding count_items need_items
  count-need_items nil = omega arith
  count-need_items (cons x xs) = omega (arith, count-need_items xs)

  -- The loops, one round each, and what an array or an object does with its loop.
  items_step :
      (x : Cbor F) (xs : Items F) (f g p : ℕ) (buf : List ℕ)
      → decode_item d f buf (some p) ≡ ok (x, some (p + length (encode_item d x)))
      → decode_items d
          (decode_item d f buf)
          g
          (some (p + length (encode_item d x)))
          (count_items xs)
        ≡ ok (xs, some (p + length (encode_item d x) + length (encode_items d xs)))
      → decode_items d (decode_item d f buf) (suc g) (some p) (count_items (cons x xs))
        ≡ ok (cons x xs, some (p + length (encode_items d (cons x xs))))
  unfolding decode_items count_items encode_items
  items_step x xs f g p buf a b =
      ground (arith, length-append (encode_item d x) (encode_items d xs))

  array_step :
      (xs : Items F) (f p : ℕ) (buf rest : List ℕ)
      → count_items xs ≤ 2 ^ 53
      → drop p buf ≡ write_head 4 (count_items xs) ++ rest
      → decode_items d
          (decode_item d f buf)
          f
          (some (p + length (write_head 4 (count_items xs))))
          (count_items xs)
        ≡ ok (xs, some (p + length (write_head 4 (count_items xs)) + length (encode_items d xs)))
      → decode_major d (decode_item d f buf) f buf 4 (short_form (count_items xs)) (p + 1)
        ≡ ok (array xs, some (p + length (encode_item d (array xs))))
  unfolding decode_major encode_item
  array_step xs f p buf rest h e a = ground (
    arith,
    read_len-short_form d ieee 4 (count_items xs) p buf rest h e,
    length-append (write_head 4 (count_items xs)) (encode_items d xs),
  )

  object_step :
      (fs : Fields F) (f p : ℕ) (buf rest : List ℕ)
      → count_fields fs ≤ 2 ^ 53
      → drop p buf ≡ write_head 5 (count_fields fs) ++ rest
      → decode_fields d
          (decode_item d f buf)
          f
          (some (p + length (write_head 5 (count_fields fs))))
          (count_fields fs)
          end
        ≡ ok (fs, some (p + length (write_head 5 (count_fields fs)) + length (encode_fields d fs)))
      → decode_major d (decode_item d f buf) f buf 5 (short_form (count_fields fs)) (p + 1)
        ≡ ok (object fs, some (p + length (encode_item d (object fs))))
  unfolding decode_major encode_item
  object_step fs f p buf rest h e a = ground (
    arith,
    read_len-short_form d ieee 5 (count_fields fs) p buf rest h e,
    length-append (write_head 5 (count_fields fs)) (encode_fields d fs),
  )

  key_bytes : JsString → List ℕ
  key_bytes k = write_head 3 (length (utf8_encode k)) ++ utf8_encode k

  fields_step :
      (k : JsString) (v : Cbor F) (fs acc : Fields F) (f g p : ℕ) (buf : List ℕ)
      → k ≢ ascii "__proto__"
      → has_key acc k ≡ false
      → decode_item d f buf (some p) ≡ ok (text k, some (p + length (key_bytes k)))
      → decode_item d f buf (some (p + length (key_bytes k)))
        ≡ ok (v, some (p + length (key_bytes k) + length (encode_item d v)))
      → decode_fields d
          (decode_item d f buf)
          g
          (some (p + length (key_bytes k) + length (encode_item d v)))
          (count_fields fs)
          (put_field acc k v)
        ≡ ok (
          append_fields (put_field acc k v) fs,
          some (p + length (key_bytes k) + length (encode_item d v) + length (encode_fields d fs)),
        )
      → decode_fields d (decode_item d f buf) (suc g) (some p) (count_fields (field k v fs)) acc
        ≡ ok (append_fields acc (field k v fs), some (p + length (encode_fields d (field k v fs))))
  unfolding decode_fields count_fields encode_fields key_bytes
  fields_step k v fs acc f g p buf proto new a b c =
      let b' : List ℕ = utf8_encode k in
      ground (
        arith,
        set_property-fresh acc k v proto,
        append_fields-put acc k v fs new,
        length-append (write_head 3 (length b')) b',
        length-append (write_head 3 (length b')) (b' ++ (encode_item d v ++ encode_fields d fs)),
        length-append b' (encode_item d v ++ encode_fields d fs),
        length-append (encode_item d v) (encode_fields d fs),
      )

  mutual
    unfolding key_bytes append_fields encode_item IsPlain need decode_items decode_fields
        count_items count_fields

    item_lem :
        (v : Cbor F) (f p : ℕ) (buf rest : List ℕ)
        → IsPlain v
        → need v ≤ f
        → drop p buf ≡ encode_item d v ++ rest
        → decode_item d f buf (some p) ≡ ok (v, some (p + length (encode_item d v)))
    item_lem null zero p buf rest i h e = absurd (omega arith)
    item_lem null (suc f) p buf rest i h e =
        decode-simple d ieee f p buf 0xf6 rest e (omega arith) (omega arith)
    item_lem undefined f p buf rest i h e = absurd i
    item_lem (boolean b) zero p buf rest i h e = absurd (omega arith)
    item_lem (boolean true) (suc f) p buf rest i h e =
        decode-simple d ieee f p buf 0xf5 rest e (omega arith) (omega arith)
    item_lem (boolean false) (suc f) p buf rest i h e =
        decode-simple d ieee f p buf 0xf4 rest e (omega arith) (omega arith)
    item_lem (int n) zero p buf rest i h e = absurd (omega arith)
    item_lem (int (pos n)) (suc f) p buf rest i h e =
        decode-int_pos d ieee f p buf n rest (omega arith) e
    item_lem (int (negsuc n)) (suc f) p buf rest i h e =
        decode-int_negsuc d ieee f p buf n rest (omega arith) e
    item_lem (float x) zero p buf rest i h e = absurd (omega arith)
    item_lem (float x) (suc f) p buf rest i h e =
        decode-float d ieee f p buf x rest e
        ∙ ap (λ k. ok (float x, some k)) (omega (arith, ieee.length-set x))
    item_lem (text s) zero p buf rest i h e = absurd (omega arith)
    item_lem (text s) (suc f) p buf rest i h e =
        decode-text d ieee f p buf s rest i
          (e ∙ append_assoc (write_head 3 (length (utf8_encode s))) (utf8_encode s) rest)
    item_lem (bytes b) zero p buf rest i h e = absurd (omega arith)
    item_lem (bytes b) (suc f) p buf rest i h e =
        decode-bytes d ieee f p buf b rest i (e ∙ append_assoc (write_head 2 (length b)) b rest)
    item_lem (array xs) zero p buf rest i h e = absurd (omega arith)
    item_lem (array xs) (suc f) p buf rest (short, plain) h e =
        let m : List ℕ = write_head 4 (count_items xs) in
        let here = e ∙ append_assoc m (encode_items d xs) rest in
        dispatch d ieee f p buf 4 (count_items xs) (encode_items d xs ++ rest) here
        ∙ array_step xs f p buf (encode_items d xs ++ rest) short here (
            items_lem xs f f (p + length m) buf rest plain (omega arith) (omega arith)
              (behind p buf m (encode_items d xs ++ rest) here))
    item_lem (object fs) zero p buf rest i h e = absurd (omega arith)
    item_lem (object fs) (suc f) p buf rest (short, fresh, plain) h e =
        let m : List ℕ = write_head 5 (count_fields fs) in
        let here = e ∙ append_assoc m (encode_fields d fs) rest in
        dispatch d ieee f p buf 5 (count_fields fs) (encode_fields d fs ++ rest) here
        ∙ object_step fs f p buf (encode_fields d fs ++ rest) short here (
            fields_lem fs f f (p + length m) buf rest end fresh plain (omega arith) (omega arith)
              (behind p buf m (encode_fields d fs ++ rest) here))

    items_lem :
        (xs : Items F) (f g p : ℕ) (buf rest : List ℕ)
        → ArePlain xs
        → need_items xs ≤ f
        → need_items xs ≤ g
        → drop p buf ≡ encode_items d xs ++ rest
        → decode_items d (decode_item d f buf) g (some p) (count_items xs)
          ≡ ok (xs, some (p + length (encode_items d xs)))
    items_lem nil f zero p buf rest i h k e = absurd (omega arith)
    items_lem nil f (suc g) p buf rest i h k e = ap (λ q. ok (nil, some q)) (omega arith)
    items_lem (cons x xs) f zero p buf rest i h k e = absurd (omega arith)
    items_lem (cons x xs) f (suc g) p buf rest (plain, plains) h k e =
        let here = e ∙ append_assoc (encode_item d x) (encode_items d xs) rest in
        items_step x xs f g p buf
          (item_lem x f p buf (encode_items d xs ++ rest) plain (omega arith) here)
          (items_lem xs f g (p + length (encode_item d x)) buf rest plains (omega arith)
            (omega arith) (behind p buf (encode_item d x) (encode_items d xs ++ rest) here))

    fields_lem :
        (fs : Fields F) (f g p : ℕ) (buf rest : List ℕ) (acc : Fields F)
        → Fresh acc fs
        → HasPlain fs
        → need_fields fs ≤ f
        → need_fields fs ≤ g
        → drop p buf ≡ encode_fields d fs ++ rest
        → decode_fields d (decode_item d f buf) g (some p) (count_fields fs) acc
          ≡ ok (append_fields acc fs, some (p + length (encode_fields d fs)))
    fields_lem end f zero p buf rest acc u i h k e = absurd (omega arith)
    fields_lem end f (suc g) p buf rest acc u i h k e =
        ap₂ (λ a q. ok (a, some q)) (sym (append_fields-nil acc)) (omega arith)
    fields_lem (field j v fs) f zero p buf rest acc u i h k e = absurd (omega arith)
    fields_lem (field j v fs) zero (suc g) p buf rest acc u i h k e = absurd (omega arith)
    fields_lem (field j v fs) (suc f) (suc g) p buf rest acc (new, proto, fresh) (t, plain, plains)
          h k e =
        let kb = utf8_encode j in
        let vb = encode_item d v in
        let tail = encode_fields d fs ++ rest in
        let here = e ∙ regroup (write_head 3 (length kb)) kb vb (encode_fields d fs) rest in
        let there =
          behind p buf (key_bytes j) (vb ++ tail)
            (here ∙ sym (append_assoc (write_head 3 (length kb)) kb (vb ++ tail))) in
        fields_step j v fs acc (suc f) g p buf proto new
          (decode-text d ieee f p buf j (vb ++ tail) t here)
          (item_lem v (suc f) (p + length (key_bytes j)) buf tail plain (omega arith) there)
          (fields_lem fs (suc f) g (p + length (key_bytes j) + length vb) buf rest
            (put_field acc j v) fresh plains (omega arith) (omega arith)
            (behind (p + length (key_bytes j)) buf vb tail there))

  mutual
    unfolding encode_item need count_items count_fields

    need-le : (v : Cbor F) → need v + 1 ≤ 3 * length (encode_item d v)
    need-le null = omega arith
    need-le undefined = omega arith
    need-le (boolean b) = omega arith
    need-le (int (pos n)) = omega (arith, length-write_head 0 n)
    need-le (int (negsuc n)) = omega (arith, length-write_head 1 n)
    need-le (float x) = omega arith
    need-le (text s) =
        let m = write_head 3 (length (utf8_encode s)) in
        omega (arith, length-write_head 3 (length (utf8_encode s)), length-append m (utf8_encode s))
    need-le (bytes b) =
        omega (arith, length-write_head 2 (length b), length-append (write_head 2 (length b)) b)
    need-le (array xs) =
        let m = write_head 4 (count_items xs) in
        omega (
          arith,
          length-write_head 4 (count_items xs),
          length-append m (encode_items d xs),
          need_items-le xs,
        )
    need-le (object fs) =
        let m = write_head 5 (count_fields fs) in
        omega (
          arith,
          length-write_head 5 (count_fields fs),
          length-append m (encode_fields d fs),
          need_fields-le fs,
        )

    need_items-le : (xs : Items F) → need_items xs ≤ 3 * length (encode_items d xs) + 1
    need_items-le nil = omega arith
    need_items-le (cons x xs) =
        omega
          (arith, need-le x, need_items-le xs, length-append (encode_item d x) (encode_items d xs))

    need_fields-le : (fs : Fields F) → need_fields fs ≤ 3 * length (encode_fields d fs) + 1
    need_fields-le end = omega arith
    need_fields-le (field k v fs) =
        let m = write_head 3 (length (utf8_encode k)) in
        let kb = utf8_encode k in
        let r = encode_item d v ++ encode_fields d fs in
        omega (
          arith,
          need-le v,
          need_fields-le fs,
          length-write_head 3 (length kb),
          length-append m (kb ++ r),
          length-append kb r,
          length-append (encode_item d v) (encode_fields d fs),
        )

  -- Every value that the wire carries comes back, with three units of fuel for each byte.
  pub decode_cbor-encode_cbor :
      (v : Cbor F)
      → IsPlain v
      → decode_cbor d (3 * length (encode_cbor d v)) (encode_cbor d v) ≡ ok v
  unfolding decode_cbor encode_cbor
  decode_cbor-encode_cbor v i = ground (
    arith,
    item_lem v (3 * length (encode_item d v)) 0 (encode_item d v) [] i (omega (arith, need-le v))
        (sym (append-nil (encode_item d v))),
  )
