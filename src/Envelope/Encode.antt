-- ===== src/Envelope/Encode.antt =====
-- packages/bare-protocol/src/encode.ts: an envelope to bytes, in four encodings.
-- A call that throws is `none`, and what the registries hold after it is left open. The parameters are
-- the host's: `number` is `Number` on a string, `stringify` is `JSON.stringify` of an object.
use bare_network_inspect.Base.{
  ℕ, ◌⊎◌, inl, inr, Bool, true, false, Option, none, some, List, [], ◌∷◌, if◌then◌else◌, JsString,
  ascii, ◌>>=◌,
}
use bare_network_inspect.Base.Int.{ℤ, pos}
use bare_network_inspect.Utf8.{utf8_encode}
use bare_network_inspect.Cbor.{
  Double, Cbor, Fields, int, float, text, bytes, array, object, undefined, nil, cons, encode_cbor,
}
use bare_network_inspect.Hlc.{split_colon}
use bare_network_inspect.Ulid.{ulid_to_bytes}
use bare_network_inspect.Registry.{MethodRegistry, PeerRegistry, intern, handle_for, hash_for}
use bare_network_inspect.Identity.{ChannelBinding, can_drop_identity}
use bare_network_inspect.Envelope.{
  P2pEnvelope, Kind, EncodingId, json_full, json_short, cbor_compact, cbor_binary, kind_to_int, req,
  res, event, ack, err,
}
use bare_network_inspect.Envelope.Object.{Entries, object_of}

pub record EncodeOptions : Type 0 where
  pub encoding : EncodingId
  pub methods : Option MethodRegistry
  pub peers : Option PeerRegistry
  pub drop_identity : Bool
  pub binding : Option ChannelBinding

-- The two registries, as a call leaves them.
pub record Registries : Type 0 where
  pub methods : Option MethodRegistry
  pub peers : Option PeerRegistry

pub data Tier : Type 0 where
  compact : Tier
  binary : Tier

-- Whether identity is dropped; `none` where the guard refuses, or there is no binding to guard it.
unfoldable pub resolve_drop : EncodeOptions → Option Bool
resolve_drop o =
    if o.drop_identity
    then elim o.binding [ none ↦ none | some b ↦ if can_drop_identity b then some true else none ]
    else some false

unfoldable pub kind_text : Kind → JsString
kind_text req = ascii "req"
kind_text res = ascii "res"
kind_text event = ascii "event"
kind_text ack = ascii "ack"
kind_text err = ascii "err"

-- `m.i`, `m.c` and `m.b`.
module _ {F : Type 0} where
  unfoldable pub id_value : Tier → JsString → Option (Cbor F)
  id_value compact id = some (text id)
  id_value binary id = do b ← ulid_to_bytes id; some (bytes b)

  unfoldable pub optional_id : Tier → Option JsString → Option (Option (Cbor F))
  optional_id tier none = some none
  optional_id tier (some id) = do v ← id_value tier id; some (some v)

  unfoldable pub optional_text : Option JsString → Option (Cbor F)
  optional_text none = none
  optional_text (some s) = some (text s)

  unfoldable pub optional_number : Option ℕ → Option (Cbor F)
  optional_number none = none
  optional_number (some n) = some (int (pos n))

  -- `undefined` is not assigned.
  unfoldable pub payload_value : Cbor F → Option (Cbor F)
  payload_value undefined = none
  payload_value v = some v

  -- `m.s` and `m.d`.
  unfoldable pub peer_value : Tier → PeerRegistry → JsString → Option (PeerRegistry × Cbor F)
  peer_value compact r peer = do (r', h) ← handle_for r peer; some (r', text h)
  peer_value binary r peer = do (r', h) ← hash_for r peer; some (r', bytes h)

  -- A number of an HLC, as `Number` reads it.
  unfoldable pub number_value : ℤ ⊎ F → Cbor F
  number_value (inl n) = int n
  number_value (inr x) = float x

  -- The registry after, and the values of src and dst unless they are dropped.
  unfoldable pub addresses :
      Tier
      → PeerRegistry
      → P2pEnvelope (Cbor F)
      → Bool
      → Option (PeerRegistry × (Option (Cbor F) × Option (Cbor F)))
  addresses tier r env true = some (r, (none, none))
  addresses tier r env false = do
    (r', s) ← peer_value tier r env.src
    (r'', t) ← peer_value tier r' env.dst
    some (r'', (some s, some t))

  -- The same of the JSON tiers, where json-full has the ids themselves.
  unfoldable pub json_addresses :
      Bool
      → Option PeerRegistry
      → P2pEnvelope (Cbor F)
      → Bool
      → Option (Option PeerRegistry × (Option (Cbor F) × Option (Cbor F)))
  json_addresses short r env true = some (r, (none, none))
  json_addresses false r env false = some (r, (some (text env.src), some (text env.dst)))
  json_addresses true none env false = none
  json_addresses true (some r) env false = do
    (r', s) ← handle_for r env.src
    (r'', t) ← handle_for r' env.dst
    some (some r'', (some (text s), some (text t)))

  -- The object of `encodeJson`.
  unfoldable pub json_entries : P2pEnvelope (Cbor F) → Option (Cbor F) × Option (Cbor F) → Entries F
  json_entries env (s, t) =
      (ascii "v", some (int (pos env.v)))
      ∷ (ascii "msgId", some (text env.msg_id))
      ∷ (ascii "corrId", some (text env.corr_id))
      ∷ (ascii "kind", some (text (kind_text env.kind)))
      ∷ (ascii "method", some (text env.method))
      ∷ (ascii "ts", some (int (pos env.ts)))
      ∷ (ascii "hlc", some (text env.hlc))
      ∷ (ascii "causedBy", optional_text env.caused_by)
      ∷ (ascii "traceparent", optional_text env.traceparent)
      ∷ (ascii "ttl", optional_number env.ttl)
      ∷ (ascii "payload", payload_value env.payload)
      ∷ (ascii "src", s)
      ∷ (ascii "dst", t)
      ∷ []

  -- The object of `encodeCborTier`, of its computed values.
  unfoldable pub tier_entries :
      P2pEnvelope (Cbor F)
      → (i c : Cbor F) → (m : ℕ) → (h : Cbor F) → Option (Cbor F)
      → Option (Cbor F) × Option (Cbor F)
      → Entries F
  tier_entries env i c m h b (s, t) =
      (ascii "v", some (int (pos env.v)))
      ∷ (ascii "i", some i)
      ∷ (ascii "c", some c)
      ∷ (ascii "k", some (int (pos (kind_to_int env.kind))))
      ∷ (ascii "m", some (int (pos m)))
      ∷ (ascii "t", some (int (pos env.ts)))
      ∷ (ascii "h", some h)
      ∷ (ascii "b", b)
      ∷ (ascii "r", optional_text env.traceparent)
      ∷ (ascii "l", optional_number env.ttl)
      ∷ (ascii "p", payload_value env.payload)
      ∷ (ascii "s", s)
      ∷ (ascii "d", t)
      ∷ []

module _ {F : Type 0} (d : Double F) (number : JsString → ℤ ⊎ F) where
  -- `splitHlc`, as the array [phys, ctr, node].
  unfoldable pub split_hlc : JsString → Option (Cbor F)
  split_hlc hlc = do
    (a, rest) ← split_colon hlc
    (b, node) ← split_colon rest
    some (
        array
          (cons (number_value (number a)) (cons (number_value (number b)) (cons (text node) nil))))

  -- The object of `encodeCborTier`, and the registries after it is built.
  unfoldable pub tier_object :
      P2pEnvelope (Cbor F)
      → Tier
      → MethodRegistry
      → PeerRegistry
      → Bool
      → Option (Entries F × (MethodRegistry × PeerRegistry))
  tier_object env tier methods peers drop = do
    h ← split_hlc env.hlc
    i ← id_value tier env.msg_id
    c ← id_value tier env.corr_id
    b ← optional_id tier env.caused_by
    (peers', st) ← addresses tier peers env drop
    some (
      tier_entries env i c (intern methods env.method).1 h b st,
      ((intern methods env.method).0, peers'),
    )

  -- `encodeCborTier`.
  unfoldable pub encode_cbor_tier :
      P2pEnvelope (Cbor F) → Tier → EncodeOptions → Bool → Option (List ℕ × Registries)
  encode_cbor_tier env tier o drop = do
    methods ← o.methods
    peers ← o.peers
    (es, (methods', peers')) ← tier_object env tier methods peers drop
    some (
      encode_cbor d (object (object_of es)),
      record { methods = some methods'; peers = some peers' },
    )

  module _ (stringify : Fields F → JsString) where
    -- `encodeJson`.
    unfoldable pub encode_json :
        P2pEnvelope (Cbor F) → Bool → EncodeOptions → Bool → Option (List ℕ × Registries)
    encode_json env short o drop = do
      (peers', st) ← json_addresses short o.peers env drop
      some (
        utf8_encode (stringify (object_of (json_entries env st))),
        record { methods = o.methods; peers = peers' },
      )

    -- `requirePeers`, before the call of `encodeJson`.
    unfoldable pub encode_with_peers :
        P2pEnvelope (Cbor F) → EncodeOptions → Bool → Option (List ℕ × Registries)
    encode_with_peers env o drop = do peers ← o.peers; encode_json env true o drop

    unfoldable pub encode_as :
        EncodingId → P2pEnvelope (Cbor F) → EncodeOptions → Bool → Option (List ℕ × Registries)
    encode_as json_full env o drop = encode_json env false o drop
    encode_as json_short env o drop = encode_with_peers env o drop
    encode_as cbor_compact env o drop = encode_cbor_tier env compact o drop
    encode_as cbor_binary env o drop = encode_cbor_tier env binary o drop

    unfoldable pub encode : P2pEnvelope (Cbor F) → EncodeOptions → Option (List ℕ × Registries)
    encode env o = do drop ← resolve_drop o; encode_as o.encoding env o drop
