-- ===== src/Adapter/Stream.antt =====
-- packages/bare-probe/adapters/hyperswarm.ts: the tap on a Hyperswarm stream.
-- The stream is any state `S` with its own `write`, which returns or throws, and its `writableLength`.
use bare_network_inspect.Base.{
  ℕ, ◌/◌, ◌%◌, Bool, true, false, not, ◌||◌, Option, none, some, List, [], ◌∷◌, if◌then◌else◌,
  JsString, ascii,
}
use bare_network_inspect.Utf8.{utf8_decode}
use bare_network_inspect.Registry.{hex_digit}
use bare_network_inspect.Sink.{
  request_start, message_out, request_end, message_in, send_error, conn_state,
}
use bare_network_inspect.Adapter.{
  WireData, string, uint8_array, other, byte_length, Call, returned, threw, EnvelopeHint,
  ProbeEvent, bare_event, Tap, emit_at, emit_or_skip, emit_and_throw, outcome, by_kind, of_hint,
  caught,
}

abbrev pub transport : Option JsString
transport = some (ascii "hyperswarm")

-- What the stream's listeners are called with.
pub data Incoming : Type 0 where
  chunk : (payload : WireData) → Incoming
  close : Incoming

-- `publicKeyToPeerId` of a key's bytes.
unfoldable pub hex_of : List ℕ → JsString
hex_of [] = []
hex_of (b ∷ bs) = hex_digit (b / 16) ∷ hex_digit (b % 16) ∷ hex_of bs

-- A key is a byte array, a string, or not there.
pub data PublicKey : Type 0 where
  no_key : PublicKey
  key_string : JsString → PublicKey
  key_bytes : List ℕ → PublicKey

unfoldable pub public_key_to_peer_id : PublicKey → Option JsString
public_key_to_peer_id no_key = none
public_key_to_peer_id (key_string s) = some s
public_key_to_peer_id (key_bytes bs) = some (hex_of bs)

-- The `peerId` of the tap.
unfoldable pub stream_peer_id : Option JsString → PublicKey → JsString
stream_peer_id (some p) key = p
stream_peer_id none key = elim (public_key_to_peer_id key) [
  | some p ↦ p
  | none ↦ ascii "unknown-hyperswarm-peer"
]

-- `toStringIfDecodable`, and what `decodeEnvelope` is given of a chunk: `other` stands for undefined.
unfoldable pub as_string : WireData → WireData
as_string (string s) = string s
as_string (uint8_array bs) = elim (utf8_decode true bs) [ none ↦ other | some s ↦ string s ]
as_string payload = other

module _ {F : Type 0} (peer_id : JsString) where
  unfoldable pub written_event : Option (EnvelopeHint F) → (bytes : ℕ) → Option ℕ → ℕ → ProbeEvent F
  written_event env bytes buffered t =
      record (bare_event (by_kind env (ascii "req") request_start message_out) peer_id t) {
        bytes = some bytes;
        transport = transport;
        buffered_amount = buffered;
        msg_id = of_hint (λ h. h.msg_id) env;
        corr_id = of_hint (λ h. h.corr_id) env;
        method = of_hint (λ h. h.method) env;
      }

  unfoldable pub failed_event : (error : JsString) (bytes : ℕ) → Option ℕ → ℕ → ProbeEvent F
  failed_event error bytes buffered t = record (bare_event send_error peer_id t) {
    bytes = some bytes;
    transport = transport;
    buffered_amount = buffered;
    error = some error;
  }

  unfoldable pub chunk_event : Option (EnvelopeHint F) → (bytes : ℕ) → ℕ → ProbeEvent F
  chunk_event env bytes t =
      record (bare_event (by_kind env (ascii "res") request_end message_in) peer_id t) {
        bytes = some bytes;
        transport = transport;
        msg_id = of_hint (λ h. h.msg_id) env;
        corr_id = of_hint (λ h. h.corr_id) env;
        method = of_hint (λ h. h.method) env;
        sender_ts = of_hint (λ h. h.ts) env;
        hlc = of_hint (λ h. h.hlc) env;
      }

  unfoldable pub close_event : ℕ → ProbeEvent F
  close_event t = record (bare_event conn_state peer_id t) {
    transport = transport;
    event = some (ascii "close");
  }

-- `instrumentHyperswarmStream`: untouched when the caller or the build disables it.
unfoldable pub instrument : {F S : Type 0} → (enabled disabled_by_build : Bool) → Tap F S → Tap F S
instrument enabled disabled_by_build s =
    if not enabled || disabled_by_build then s else record s { hooked = true; listening = true }

module _ {E F S : Type 0} (now : ℕ → Call E ℕ) (message_of : E → JsString)
    (decode_envelope : WireData → Call E (Option (EnvelopeHint F))) (peer_id : JsString) where
  unfoldable pub instrumented_write :
      {R : Type 0}
      → (WireData → S → S × Call E R)
      → (S → Option ℕ)
      → Tap F S
      → WireData
      → Tap F S × Call E R
  instrumented_write orig_write writable_length s payload =
      let buffered = writable_length s.channel in
      let bytes = byte_length payload in
      let env = caught (decode_envelope payload) in
      outcome (orig_write payload s.channel)
        (λ ch r.
          outcome
            (emit_at now (written_event peer_id env bytes buffered) (record s { channel = ch }))
            (λ s' u. (s', returned r)) (λ s' err. (s', threw err)))
        (λ ch err.
          emit_and_throw now (failed_event peer_id (message_of err) bytes buffered) err
            (record s { channel = ch }))

  -- `onData`, where a throw of `decodeEnvelope` leaves out the event, and `onClose`.
  unfoldable pub on_incoming : Tap F S → Incoming → Tap F S
  on_incoming s (chunk payload) = elim (decode_envelope (as_string payload)) [
    | threw e ↦ s
    | returned env ↦ emit_or_skip now (chunk_event peer_id env (byte_length payload)) s
  ]
  on_incoming s close = emit_or_skip now (close_event peer_id) s

-- `restore`; a stream without `removeListener` keeps the listeners.
unfoldable pub restore : {F S : Type 0} → (can_remove : Bool) → Tap F S → Tap F S
restore can_remove s = record s {
  hooked = false;
  listening = if can_remove then false else s.listening;
}
