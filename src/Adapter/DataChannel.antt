-- ===== src/Adapter/DataChannel.antt =====
-- packages/bare-probe/adapters/webrtc.ts: the tap on a WebRTC data channel.
-- The channel is any state `S` with its own `send`, which returns or throws, and its `bufferedAmount`.
use bare_network_inspect.Base.{
  ℕ, Bool, true, false, not, ◌||◌, Option, some, if◌then◌else◌, JsString, ascii,
}
use bare_network_inspect.Sink.{
  request_start, message_out, request_end, message_in, send_error, backpressure_clear,
}
use bare_network_inspect.Adapter.{
  WireData, byte_length, Call, returned, threw, EnvelopeHint, ProbeEvent, bare_event, Tap, emit_at,
  emit_or_skip, emit_and_throw, outcome, by_kind, of_hint, caught,
}

abbrev pub transport : Option JsString
transport = some (ascii "webrtc-dc")

-- What the channel's listeners are called with.
pub data Incoming : Type 0 where
  message : (payload : WireData) → Incoming
  buffered_amount_low : Incoming

module _ {F : Type 0} (peer_id : JsString) where
  unfoldable pub sent_event : Option (EnvelopeHint F) → (bytes buffered : ℕ) → ℕ → ProbeEvent F
  sent_event env bytes buffered t =
      record (bare_event (by_kind env (ascii "req") request_start message_out) peer_id t) {
        bytes = some bytes;
        transport = transport;
        buffered_amount = some buffered;
        msg_id = of_hint (λ h. h.msg_id) env;
        corr_id = of_hint (λ h. h.corr_id) env;
        method = of_hint (λ h. h.method) env;
      }

  unfoldable pub failed_event : (error : JsString) (bytes buffered : ℕ) → ℕ → ProbeEvent F
  failed_event error bytes buffered t = record (bare_event send_error peer_id t) {
    bytes = some bytes;
    transport = transport;
    buffered_amount = some buffered;
    error = some error;
  }

  unfoldable pub received_event : Option (EnvelopeHint F) → (bytes : ℕ) → ℕ → ProbeEvent F
  received_event env bytes t =
      record (bare_event (by_kind env (ascii "res") request_end message_in) peer_id t) {
        bytes = some bytes;
        transport = transport;
        msg_id = of_hint (λ h. h.msg_id) env;
        corr_id = of_hint (λ h. h.corr_id) env;
        method = of_hint (λ h. h.method) env;
        sender_ts = of_hint (λ h. h.ts) env;
        hlc = of_hint (λ h. h.hlc) env;
      }

  unfoldable pub clear_event : ℕ → ProbeEvent F
  clear_event t = record (bare_event backpressure_clear peer_id t) { transport = transport }

-- `instrumentDataChannel`: untouched when the caller or the build disables it.
unfoldable pub instrument : {F S : Type 0} → (enabled disabled_by_build : Bool) → Tap F S → Tap F S
instrument enabled disabled_by_build s =
    if not enabled || disabled_by_build then s else record s { hooked = true; listening = true }

module _ {E F S : Type 0} (now : ℕ → Call E ℕ) (message_of : E → JsString)
    (decode_envelope : WireData → Call E (Option (EnvelopeHint F))) (peer_id : JsString) where
  unfoldable pub instrumented_send :
      {R : Type 0}
      → (WireData → S → S × Call E R)
      → (S → ℕ)
      → Tap F S
      → WireData
      → Tap F S × Call E R
  instrumented_send {R = R} orig_send buffered_amount s payload =
      let buffered = buffered_amount s.channel in
      let bytes = byte_length payload in
      let env = caught (decode_envelope payload) in
      let fail : E → Tap F S → Tap F S × Call E R = λ err s'.
        emit_and_throw now (failed_event peer_id (message_of err) bytes buffered) err s' in
      outcome (orig_send payload s.channel)
        (λ ch r.
          outcome (emit_at now (sent_event peer_id env bytes buffered) (record s { channel = ch }))
            (λ s' u. (s', returned r)) (λ s' err. fail err s'))
        (λ ch err. fail err (record s { channel = ch }))

  -- `onMessage`, where a throw of `decodeEnvelope` leaves out the event, and `onBufferedAmountLow`.
  unfoldable pub on_incoming : Tap F S → Incoming → Tap F S
  on_incoming s (message payload) = elim (decode_envelope payload) [
    | threw e ↦ s
    | returned env ↦ emit_or_skip now (received_event peer_id env (byte_length payload)) s
  ]
  on_incoming s buffered_amount_low = emit_or_skip now (clear_event peer_id) s

-- `restore`; a channel without `removeEventListener` keeps the listeners.
unfoldable pub restore : {F S : Type 0} → (can_remove : Bool) → Tap F S → Tap F S
restore can_remove s = record s {
  hooked = false;
  listening = if can_remove then false else s.listening;
}
