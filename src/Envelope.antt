-- ===== src/Envelope.antt =====
-- packages/bare-protocol/src/envelope.ts: the envelope and the integers of its kinds.
-- An optional field is an `Option`; a time is a whole number, and the payload any type.
mod Kinds
pub mod Object
pub mod Encode
pub mod Decode
pub mod Parts
pub mod Fields
pub mod RoundTrip
mod Tests
use bare_network_inspect.Base.{ℕ, Option, some, List, [], ◌∷◌, get_elem?, JsString}

pub data Kind : Type 0 where
  req : Kind
  res : Kind
  event : Kind
  ack : Kind
  err : Kind

pub record P2pEnvelope {ℓ} (T : Type ℓ) : Type ℓ where
  pub v : ℕ
  pub msg_id : JsString
  pub corr_id : JsString
  pub caused_by : Option JsString
  pub traceparent : Option JsString
  pub kind : Kind
  pub method : JsString
  pub src : JsString
  pub dst : JsString
  pub ts : ℕ
  pub hlc : JsString
  pub ttl : Option ℕ
  pub payload : T

pub data EncodingId : Type 0 where
  json_full : EncodingId
  json_short : EncodingId
  cbor_compact : EncodingId
  cbor_binary : EncodingId

-- The lookup in `KIND_TO_INT`, which has every kind.
unfoldable pub kind_to_int : Kind → ℕ
kind_to_int req = 0
kind_to_int res = 1
kind_to_int event = 2
kind_to_int ack = 3
kind_to_int err = 4

-- `none` is the Error.
unfoldable pub int_to_kind : ℕ → Option Kind
int_to_kind n = get_elem? (req ∷ res ∷ event ∷ ack ∷ err ∷ []) n
