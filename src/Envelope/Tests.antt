-- ===== src/Envelope/Tests.antt =====
-- A run of the CBOR tier of encode.ts and decode.ts.
use bare_network_inspect.Base.{
  ℕ, ◌+◌, ◌*◌, ◌-◌, ◌≡◌, refl, inl, Option, none, some, List, [], ◌∷◌, arith, length, ◌⊎◌, false,
  ℕ_discrete, JsString, same, ascii, map_get, map_set,
}
use bare_network_inspect.Base.Int.{ℤ, pos}
use bare_network_inspect.Cbor.{Cbor, text, object, encode_cbor}
use bare_network_inspect.Cbor.Tests.{nan_only, nan_only-IsIeee}
use bare_network_inspect.Hlc.{HlcTime, serialize_hlc, decimal, digits, split_colon}
use bare_network_inspect.Registry.{
  MethodRegistry, intern, handle_for, handle_of, collides, broadcast, is_same,
}
use bare_network_inspect.Envelope.{P2pEnvelope, req, cbor_compact}
use bare_network_inspect.Envelope.Object.{object_of}
use bare_network_inspect.Envelope.Encode.{
  EncodeOptions, Registries, compact, id_value, optional_id, payload_value, peer_value,
  number_value, addresses, split_hlc, tier_entries, tier_object, encode_cbor_tier,
}
use bare_network_inspect.Envelope.Decode.{ok, decode_cbor_tier}
use bare_network_inspect.Envelope.Parts.{ascii-IsText}
use bare_network_inspect.Envelope.RoundTrip.{
  IsCarried, clock_value, decode_cbor_tier-encode_cbor_tier,
}
use bare_network_inspect.Cbor.RoundTrip.Plain.{IsPlain}

abbrev digits_value : ℕ → JsString → ℕ
digits_value n [] = n
digits_value n (ch ∷ s) = digits_value (n * 10 + (ch - 48)) s

-- `Number` on decimal digits.
abbrev digits_number : JsString → ℤ ⊎ Unit {0}
digits_number s = inl (pos (digits_value 0 s))

abbrev parse_nothing : JsString → Option (Cbor (Unit {0}))
parse_nothing s = none

abbrev clock : HlcTime
clock = record { l = 17; c = 2; id = ascii "n" }

abbrev envelope : P2pEnvelope (Cbor (Unit {0}))
envelope = record {
  v = 1;
  msg_id = ascii "m1";
  corr_id = ascii "c1";
  caused_by = none;
  traceparent = none;
  kind = req;
  method = ascii "put";
  src = ascii "a";
  dst = ascii "*";
  ts = 9;
  hlc = serialize_hlc clock;
  ttl = some 3;
  payload = text (ascii "hi");
}

abbrev methods : MethodRegistry
methods = record { s2i = []; i2s = [] }

abbrev options : EncodeOptions
options = record {
  encoding = cbor_compact;
  methods = some methods;
  peers = some (record { by_handle = []; by_hash = [] });
  drop_identity = false;
  binding = none;
}

abbrev after : Registries
after = record {
  methods = some (record { s2i = (ascii "put", 0) ∷ []; i2s = ascii "put" ∷ [] });
  peers = some (record { by_handle = (handle_of (ascii "a"), ascii "a") ∷ []; by_hash = [] });
}

-- The bytes that are sent.
abbrev wire : List ℕ
wire = encode_cbor nan_only (
    object (
      object_of (
        tier_entries envelope (text (ascii "m1")) (text (ascii "c1")) 0 (clock_value clock) none
          (some (text (handle_of (ascii "a"))), some (text broadcast)))))

wire_lem :
    encode_cbor_tier nan_only digits_number envelope compact options false ≡ some (wire, after)
unfolding encode_cbor_tier tier_object split_hlc serialize_hlc decimal digits split_colon
    number_value id_value optional_id addresses peer_value handle_for is_same collides map_get
    map_set intern clock_value same ℕ_discrete
wire_lem = refl

envelope-IsCarried : IsCarried digits_number envelope clock
unfolding decimal digits payload_value IsPlain
envelope-IsCarried = record {
  v = refl;
  hlc = refl;
  phys = refl;
  ctr = refl;
  l = omega arith;
  c = omega arith;
  node = ascii-IsText (ascii "n") (omega arith) (omega arith);
  msg_id = ascii-IsText (ascii "m1") (omega arith) (omega arith);
  corr_id = ascii-IsText (ascii "c1") (omega arith) (omega arith);
  caused_by = tt;
  traceparent = tt;
  ts = omega arith;
  ttl = omega arith;
  payload = ascii-IsText (ascii "hi") (omega arith) (omega arith);
}

decode_cbor_tier-encode_cbor_tier_example :
    decode_cbor_tier nan_only parse_nothing (3 * length wire) wire compact (record {
      encoding = cbor_compact;
      methods = after.methods;
      peers = after.peers;
      binding = none;
    })
    ≡ ok envelope
decode_cbor_tier-encode_cbor_tier_example =
    decode_cbor_tier-encode_cbor_tier nan_only digits_number parse_nothing envelope clock compact
      methods options false none wire after nan_only-IsIeee envelope-IsCarried refl
      (record { lossless = tt; room = omega arith }) tt wire_lem
