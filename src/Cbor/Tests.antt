-- ===== src/Cbor/Tests.antt =====
-- Runs of the codec of cbor.ts, over doubles that are integers or NaN.
use bare_network_inspect.Base.{
  ◌+◌, ◌*◌, ◌/◌, ◌%◌, ◌≤◌, ◌≡◌, refl, inr, some, [], ◌∷◌, arith, ℕ_discrete, length, get_or, same,
  ascii,
}
use bare_network_inspect.Base.Int.{pos, negsuc}
use bare_network_inspect.Utf8.{utf8_encode, code_point_bytes, utf8_decode, decode_from, byte}
use bare_network_inspect.Utf8.RoundTrip.{well_formed}
use bare_network_inspect.Cbor.{
  Double, Cbor, null, int, array, object, nil, cons, end, field, ok, thrown, stuck, write_head,
  read_len, encode_item, encode_cbor, decode_cbor, decode_item, decode_major, decode_fields,
  set_property,
}
use bare_network_inspect.Cbor.Head.{IsIeee, read_len-write_head}
use bare_network_inspect.Cbor.RoundTrip.Plain.{IsText, IsPlain, has_key}
use bare_network_inspect.Cbor.RoundTrip.Values.{decode_cbor-encode_cbor}
use bare_network_inspect.Cbor.Runaway.{runaway, decode_cbor-runaway}

-- NaN is the only double here that is no integer.
abbrev pub nan_only : Double (Unit {0})
nan_only = record {
  nan = tt;
  set_float64 = λ _. 0x7f ∷ 0xf8 ∷ 0 ∷ 0 ∷ 0 ∷ 0 ∷ 0 ∷ 0 ∷ [];
  get_float64 = λ _. inr tt;
  round = λ n. n;
}

pub nan_only-IsIeee : IsIeee nan_only
nan_only-IsIeee = record { exact = λ n h. refl; length-set = λ x. refl; get-set = λ x. refl }

-- {"k": [1, -2, null]}
abbrev sample : Cbor (Unit {0})
sample =
    object
      (field (ascii "k") (array (cons (int (pos 1)) (cons (int (negsuc 1)) (cons null nil)))) end)

sample_bytes : encode_cbor nan_only sample ≡ 0xa1 ∷ 0x61 ∷ 0x6b ∷ 0x83 ∷ 0x01 ∷ 0x21 ∷ 0xf6 ∷ []
unfolding encode_cbor encode_item utf8_encode code_point_bytes
sample_bytes = refl

trailing : decode_cbor nan_only 9 (0x01 ∷ 0x02 ∷ []) ≡ thrown
unfolding decode_cbor decode_item decode_major
trailing = refl

-- A map whose key is `__proto__` decodes to an object without properties.
proto_lost :
    decode_cbor nan_only 99
      (encode_cbor nan_only (object (field (ascii "__proto__") (int (pos 1)) end)))
    ≡ ok (object end)
unfolding encode_cbor encode_item utf8_encode code_point_bytes decode_cbor decode_item decode_major
    decode_fields set_property same ℕ_discrete utf8_decode decode_from byte
proto_lost = refl

key-IsText : IsText (ascii "k")
unfolding well_formed utf8_encode code_point_bytes
key-IsText = record { units = omega arith; paired = refl; short = omega arith }

sample-IsPlain : IsPlain sample
unfolding IsPlain has_key
sample-IsPlain = (
  omega arith,
  (refl, λ e. ground arith, tt),
  (key-IsText, (omega arith, (omega arith, (omega arith, (tt, tt)))), tt),
)

decode_cbor-encode_cbor_example :
    decode_cbor nan_only (3 * length (encode_cbor nan_only sample)) (encode_cbor nan_only sample)
    ≡ ok sample
decode_cbor-encode_cbor_example =
    decode_cbor-encode_cbor nan_only nan_only-IsIeee sample sample-IsPlain

read_len-write_head_example :
    (get_or (0x59 ∷ 0x03 ∷ 0xe8 ∷ []) 0 0 / 32 ≡ 2)
    × (read_len nan_only (0x59 ∷ 0x03 ∷ 0xe8 ∷ []) (get_or (0x59 ∷ 0x03 ∷ 0xe8 ∷ []) 0 0 % 32) 1
        ≡ ok (some 1000, 0 + length (write_head 2 1000)))
unfolding write_head
read_len-write_head_example =
    read_len-write_head nan_only nan_only-IsIeee 2 1000 0 (0x59 ∷ 0x03 ∷ 0xe8 ∷ []) [] (omega arith)
      (omega arith) refl

decode_cbor-runaway_example :
    (length (runaway nan_only nan_only-IsIeee 0xffff_ffff) ≤ 6)
    × (decode_cbor nan_only 1000 (runaway nan_only nan_only-IsIeee 0xffff_ffff) ≡ stuck)
decode_cbor-runaway_example =
    decode_cbor-runaway nan_only nan_only-IsIeee 0xffff_ffff 1000 (omega arith) (omega arith)
