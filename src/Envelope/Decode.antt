-- ===== src/Envelope/Decode.antt =====
-- packages/bare-protocol/src/decode.ts: bytes back to an envelope, in four encodings.
-- The code casts what it reads to the envelope's types and does not check it. Where a field has another
-- type than an encoder writes, the model stops with `untyped`: the code goes on with that value. An
-- object's prototype is left out, so that a map with the key `__proto__` is read as if it had none.
-- The host's `JSON.parse` is the parameter `parse`, with `none` for its SyntaxError.
use bare_network_inspect.Base.{
  ℕ, suc, Bool, true, false, Option, none, some, List, [], ◌∷◌, ◌++◌, if◌then◌else◌, JsString, same,
  ascii,
}
use bare_network_inspect.Base
use bare_network_inspect.Base.Int.{pos, negsuc}
use bare_network_inspect.Utf8.{utf8_decode}
use bare_network_inspect.Cbor.{
  Double, Cbor, Fields, Items, null, undefined, boolean, int, float, text, bytes, array, object,
  nil, cons, end, field, decode_cbor,
}
use bare_network_inspect.Cbor
use bare_network_inspect.Hlc.{decimal}
use bare_network_inspect.Ulid.{bytes_to_ulid}
use bare_network_inspect.Registry.{
  MethodRegistry, PeerRegistry, lookup, peer_from_handle, peer_from_hash, is_same,
}
use bare_network_inspect.Identity.{ChannelBinding}
use bare_network_inspect.Version.{tolerant_select, v1_fields}
use bare_network_inspect.Envelope.{
  P2pEnvelope, Kind, EncodingId, json_full, json_short, cbor_compact, cbor_binary, int_to_kind, req,
  res, event, ack, err,
}
use bare_network_inspect.Envelope.Object.{get_field}
use bare_network_inspect.Envelope.Encode.{Tier, compact, binary}

-- `stuck` is that of the CBOR decoder.
pub data Outcome {ℓ} (A : Type ℓ) : Type ℓ where
  ok : A → Outcome A
  thrown : Outcome A
  untyped : Outcome A
  stuck : Outcome A

infixl 5 ◌>>=◌
abbrev pub ◌>>=◌ {ℓ κ} : {A : Type ℓ} {B : Type κ} → Outcome A → (A → Outcome B) → Outcome B
ok a >>= f = f a
thrown >>= f = thrown
untyped >>= f = untyped
stuck >>= f = stuck

-- The value of a call that throws on `none`.
abbrev pub or_throw {ℓ} : {A : Type ℓ} → Option A → Outcome A
or_throw none = thrown
or_throw (some a) = ok a

pub record DecodeOptions : Type 0 where
  pub encoding : EncodingId
  pub methods : Option MethodRegistry
  pub peers : Option PeerRegistry
  pub binding : Option ChannelBinding

-- `recoverIdentity`: src and dst from the binding.
unfoldable pub recover_identity : Option ChannelBinding → Outcome (JsString × JsString)
recover_identity none = thrown
recover_identity (some b) = elim b.resolve_src [
  | none ↦ thrown
  | some s ↦ elim b.resolve_dst [ none ↦ thrown | some t ↦ ok (s, t) ]
]

-- The kind of a text; the code takes any text for one.
unfoldable pub kind_of_text : JsString → Outcome Kind
kind_of_text s =
    if is_same s (ascii "req")
    then ok req
    else if is_same s (ascii "res")
    then ok res
    else if is_same s (ascii "event")
    then ok event
    else if is_same s (ascii "ack")
    then ok ack
    else if is_same s (ascii "err")
    then ok err
    else untyped

module _ {F : Type 0} where
  -- A part of the array `h`, in the template string.
  unfoldable pub printed : Cbor F → Outcome JsString
  printed (int (pos n)) = ok (decimal n)
  printed (int (negsuc n)) = ok (45 ∷ decimal (suc n))
  printed (text s) = ok s
  printed (boolean b) = untyped
  printed null = untyped
  printed undefined = untyped
  printed (float x) = untyped
  printed (bytes b) = untyped
  printed (array xs) = untyped
  printed (object fs) = untyped

  -- `m.h`, printed.
  unfoldable pub read_hlc : Option (Cbor F) → Outcome JsString
  read_hlc none = thrown
  read_hlc (some null) = thrown
  read_hlc (some undefined) = thrown
  read_hlc (some (array (cons a (cons b (cons c xs))))) = printed a >>= λ phys.
      printed b >>= λ ctr. printed c >>= λ node. ok (phys ++ (58 ∷ (ctr ++ (58 ∷ node))))
  read_hlc (some v) = untyped

  -- An index of a table: `undefined` and a negative number have no entry.
  unfoldable pub read_index : Option (Cbor F) → Outcome ℕ
  read_index none = thrown
  read_index (some (int (pos n))) = ok n
  read_index (some (int (negsuc n))) = thrown
  read_index (some null) = thrown
  read_index (some undefined) = thrown
  read_index (some v) = untyped

  unfoldable pub read_text : Option (Cbor F) → Outcome JsString
  read_text (some (text s)) = ok s
  read_text v = untyped

  unfoldable pub read_number : Option (Cbor F) → Outcome ℕ
  read_number (some (int (pos n))) = ok n
  read_number v = untyped

  -- A field read under its own `in` test.
  unfoldable pub read_optional {ℓ} :
      {A : Type ℓ} → (Option (Cbor F) → Outcome A) → Option (Cbor F) → Outcome (Option A)
  read_optional read none = ok none
  read_optional read (some v) = read (some v) >>= λ a. ok (some a)

  -- `m.i`, `m.c` and `m.b`.
  unfoldable pub read_id : Tier → Option (Cbor F) → Outcome JsString
  read_id compact v = read_text v
  read_id binary none = thrown
  read_id binary (some (bytes b)) = or_throw (bytes_to_ulid b)
  read_id binary (some v) = untyped

  unfoldable pub read_peer : Tier → PeerRegistry → Cbor F → Outcome JsString
  read_peer compact r (text h) = or_throw (peer_from_handle r h)
  read_peer binary r (bytes h) = or_throw (peer_from_hash r h)
  read_peer tier r v = untyped

  -- src and dst: from the wire if both are there, else from the channel.
  unfoldable pub read_addresses :
      (Cbor F → Outcome JsString)
      → Option ChannelBinding
      → Option (Cbor F)
      → Option (Cbor F)
      → Outcome (JsString × JsString)
  read_addresses read binding (some s) (some t) = read s >>= λ src. read t >>= λ dst. ok (src, dst)
  read_addresses read binding none t = recover_identity binding
  read_addresses read binding (some s) none = recover_identity binding

  unfoldable pub or_undefined : Option (Cbor F) → Cbor F
  or_undefined none = undefined
  or_undefined (some v) = v

  -- `decodeCborTier` behind the call of `decodeCbor`.
  unfoldable pub read_tier :
      Fields F
      → Tier
      → MethodRegistry
      → PeerRegistry
      → Option ChannelBinding
      → Outcome (P2pEnvelope (Cbor F))
  read_tier m tier methods peers binding = read_hlc (get_field m (ascii "h")) >>= λ hlc.
      read_index (get_field m (ascii "m")) >>= λ n. or_throw (lookup methods n) >>= λ method.
      read_index (get_field m (ascii "k")) >>= λ k. or_throw (int_to_kind k) >>= λ kind.
      read_addresses (read_peer tier peers) binding (get_field m (ascii "s"))
        (get_field m (ascii "d"))
      >>= λ st. read_id tier (get_field m (ascii "i")) >>= λ msg_id.
          read_id tier (get_field m (ascii "c")) >>= λ corr_id.
          read_number (get_field m (ascii "t")) >>= λ ts.
          read_optional (read_id tier) (get_field m (ascii "b")) >>= λ caused_by.
          read_optional read_text (get_field m (ascii "r")) >>= λ traceparent.
          read_optional read_number (get_field m (ascii "l")) >>= λ ttl. ok (record {
            v = 1;
            msg_id = msg_id;
            corr_id = corr_id;
            caused_by = caused_by;
            traceparent = traceparent;
            kind = kind;
            method = method;
            src = st.0;
            dst = st.1;
            ts = ts;
            hlc = hlc;
            ttl = ttl;
            payload = or_undefined (get_field m (ascii "p"));
          })

  -- A property of what `decodeCbor` returned: of a value that is no object there is no `h`.
  unfoldable pub read_decoded :
      Cbor F
      → Tier
      → MethodRegistry
      → PeerRegistry
      → Option ChannelBinding
      → Outcome (P2pEnvelope (Cbor F))
  read_decoded (object m) tier methods peers binding = read_tier m tier methods peers binding
  read_decoded v tier methods peers binding = thrown

  -- The properties of an object, as `Object.keys` and reads give them.
  unfoldable pub properties : Fields F → List (JsString × Cbor F)
  properties end = []
  properties (field k v fs) = (k, v) ∷ properties fs

  unfoldable pub is_nullish : Cbor F → Bool
  is_nullish null = true
  is_nullish undefined = true
  is_nullish v = false

  -- A value of the selected object.
  unfoldable pub selected : List (JsString × Cbor F) → JsString → Option (Cbor F)
  selected sel k = Base.map_get same k sel

  -- `peers.peerFromHandle(sel.src)`, or the id itself.
  unfoldable pub read_json_peer : Bool → Option PeerRegistry → Cbor F → Outcome JsString
  read_json_peer false r (text s) = ok s
  read_json_peer true none v = thrown
  read_json_peer true (some r) (text h) = or_throw (peer_from_handle r h)
  read_json_peer short r v = untyped

  -- `decodeJson` behind `tolerantSelect`, and `assemble`.
  unfoldable pub read_json :
      List (JsString × Cbor F)
      → Bool
      → Option PeerRegistry
      → Option ChannelBinding
      → Outcome (P2pEnvelope (Cbor F))
  read_json sel short peers binding =
      read_addresses (read_json_peer short peers) binding (selected sel (ascii "src"))
        (selected sel (ascii "dst"))
      >>= λ st. read_text (selected sel (ascii "msgId")) >>= λ msg_id.
          read_text (selected sel (ascii "corrId")) >>= λ corr_id.
          read_text (selected sel (ascii "kind")) >>= kind_of_text >>= λ kind.
          read_text (selected sel (ascii "method")) >>= λ method.
          read_number (selected sel (ascii "ts")) >>= λ ts.
          read_text (selected sel (ascii "hlc")) >>= λ hlc.
          read_optional read_text (selected sel (ascii "causedBy")) >>= λ caused_by.
          read_optional read_text (selected sel (ascii "traceparent")) >>= λ traceparent.
          read_optional read_number (selected sel (ascii "ttl")) >>= λ ttl. ok (record {
            v = 1;
            msg_id = msg_id;
            corr_id = corr_id;
            caused_by = caused_by;
            traceparent = traceparent;
            kind = kind;
            method = method;
            src = st.0;
            dst = st.1;
            ts = ts;
            hlc = hlc;
            ttl = ttl;
            payload = or_undefined (selected sel (ascii "payload"));
          })

  -- `tolerantSelect` of what `JSON.parse` returned; it throws on a value without the required fields.
  unfoldable pub read_parsed :
      Cbor F → Bool → Option PeerRegistry → Option ChannelBinding → Outcome (P2pEnvelope (Cbor F))
  read_parsed (object fs) short peers binding =
      or_throw (tolerant_select is_nullish (properties fs) v1_fields) >>= λ sel.
      read_json sel short peers binding
  read_parsed v short peers binding = thrown

-- What `decodeCbor` returns, as an outcome.
abbrev pub lift : {A : Type 0} → Cbor.Result A → Outcome A
lift (Cbor.ok a) = ok a
lift Cbor.thrown = thrown
lift Cbor.stuck = stuck

module _ {F : Type 0} (d : Double F) (parse : JsString → Option (Cbor F)) where
  -- `decodeCborTier`, with the fuel of the CBOR decoder.
  unfoldable pub decode_cbor_tier :
      ℕ → List ℕ → Tier → DecodeOptions → Outcome (P2pEnvelope (Cbor F))
  decode_cbor_tier fuel bs tier o = or_throw o.methods >>= λ methods. or_throw o.peers >>= λ peers.
      lift (decode_cbor d fuel bs) >>= λ v. read_decoded v tier methods peers o.binding

  -- `decodeJson`.
  unfoldable pub decode_json : List ℕ → Bool → DecodeOptions → Outcome (P2pEnvelope (Cbor F))
  decode_json bs short o = or_throw (utf8_decode true bs) >>= λ s.
      or_throw (parse s) >>= λ raw. read_parsed raw short o.peers o.binding

  unfoldable pub decode_as :
      EncodingId → ℕ → List ℕ → DecodeOptions → Outcome (P2pEnvelope (Cbor F))
  decode_as json_full fuel bs o = decode_json bs false o
  decode_as json_short fuel bs o = decode_json bs true o
  decode_as cbor_compact fuel bs o = decode_cbor_tier fuel bs compact o
  decode_as cbor_binary fuel bs o = decode_cbor_tier fuel bs binary o

  unfoldable pub decode : ℕ → List ℕ → DecodeOptions → Outcome (P2pEnvelope (Cbor F))
  decode fuel bs o = decode_as o.encoding fuel bs o
