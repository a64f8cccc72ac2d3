-- ===== src/Adapter/Socket.antt =====
-- packages/bare-probe/adapters/websocket.ts: the tap on every WebSocket that the app constructs, and
-- packages/bare-probe/adapters/env.ts: the switch of a release build.
-- The socket is any state `S` with its own `send`, which returns or throws.
use bare_network_inspect.Base.{
  ℕ, Bool, true, false, not, ◌||◌, Option, some, if◌then◌else◌, JsString, ascii,
}
use bare_network_inspect.Registry.{is_same}
use bare_network_inspect.Sink.{
  L2EventType, ws_open_attempt, ws_open, ws_close, ws_error, ws_message_out, ws_message_in,
  send_error,
}
use bare_network_inspect.Adapter.{
  WireData, byte_length, Call, returned, ProbeEvent, bare_event, Tap, emit_at, emit_or_skip,
  emit_and_throw, outcome,
}

-- A global that may be missing, or whose reading may throw.
pub data Signal {ℓ} (A : Type ℓ) : Type ℓ where
  missing : Signal A
  unreadable : Signal A
  present : A → Signal A

-- The first test of `isProbeDisabledByBuild`: `__DEV__ === false`.
unfoldable pub is_release : Signal Bool → Bool
is_release (present dev) = not dev
is_release signal = false

-- The second: `process?.env?.NODE_ENV === 'production'`.
unfoldable pub is_production : Signal JsString → Bool
is_production (present s) = is_same s (ascii "production")
is_production signal = false

unfoldable pub is_probe_disabled_by_build : Signal Bool → Signal JsString → Bool
is_probe_disabled_by_build dev node_env = is_release dev || is_production node_env

-- What the socket's listeners are called with; a close event may lack its code and reason.
pub data Incoming : Type 0 where
  opened : Incoming
  close : (code : Option ℕ) (reason : Option JsString) → Incoming
  failure : Incoming
  message : (payload : WireData) → Incoming

module _ {F : Type 0} (peer_id url : JsString) where
  unfoldable pub socket_event : L2EventType → ℕ → ProbeEvent F
  socket_event event_type t = record (bare_event event_type peer_id t) {
    url = some url;
    transport = some (ascii "websocket");
  }

  unfoldable pub bytes_event : L2EventType → (bytes : ℕ) → ℕ → ProbeEvent F
  bytes_event event_type bytes t = record (socket_event event_type t) { bytes = some bytes }

  unfoldable pub failed_event : (error : JsString) (bytes : ℕ) → ℕ → ProbeEvent F
  failed_event error bytes t = record (bytes_event send_error bytes t) { error = some error }

  unfoldable pub close_event : (code : Option ℕ) (reason : Option JsString) → ℕ → ProbeEvent F
  close_event code reason t = record (socket_event ws_close t) { code = code; reason = reason }

  unfoldable pub error_event : ℕ → ProbeEvent F
  error_event t = record (socket_event ws_error t) { error = some (ascii "websocket error") }

-- `instrumentWebSocket`: whether it puts its class in place of the page's.
unfoldable pub install : (enabled disabled_by_build : Bool) → Bool
install enabled disabled_by_build = if not enabled || disabled_by_build then false else true

module _ {E F S : Type 0} (now : ℕ → Call E ℕ) (message_of : E → JsString)
    (peer_id url : JsString) where
  -- The constructor behind `super`: a reading of the time that throws leaves the socket without a tap.
  unfoldable pub construct : Tap F S → Tap F S
  construct s =
      outcome (emit_at now (socket_event peer_id url ws_open_attempt) s)
        (λ s' u. record s' { hooked = true; listening = true }) (λ s' e. s')

  -- `new WebSocket(url)` in a page with the instrumented class, or without it.
  unfoldable pub new_socket : (installed : Bool) → Tap F S → Tap F S
  new_socket installed s = if installed then construct s else s

  unfoldable pub instrumented_send :
      {R : Type 0} → (WireData → S → S × Call E R) → Tap F S → WireData → Tap F S × Call E R
  instrumented_send {R = R} orig_send s payload =
      let bytes = byte_length payload in
      let fail : E → Tap F S → Tap F S × Call E R =
        λ err s'. emit_and_throw now (failed_event peer_id url (message_of err) bytes) err s' in
      outcome (orig_send payload s.channel)
        (λ ch r.
          outcome
            (emit_at now (bytes_event peer_id url ws_message_out bytes) (record s { channel = ch }))
            (λ s' u. (s', returned r)) (λ s' err. fail err s'))
        (λ ch err. fail err (record s { channel = ch }))

  -- The four listeners.
  unfoldable pub on_incoming : Tap F S → Incoming → Tap F S
  on_incoming s opened = emit_or_skip now (socket_event peer_id url ws_open) s
  on_incoming s (close code reason) = emit_or_skip now (close_event peer_id url code reason) s
  on_incoming s failure = emit_or_skip now (error_event peer_id url) s
  on_incoming s (message payload) =
      emit_or_skip now (bytes_event peer_id url ws_message_in (byte_length payload)) s
