-- ===== src/Adapter/Transparent.antt =====
-- The taps of packages/bare-probe/adapters and the transport below them: what each part leaves as it is.
pub mod Sends
pub mod Runs
use bare_network_inspect.Base.{
  ℕ, suc, ◌+◌, ◌≡◌, refl, arith, Bool, true, false, not, ◌||◌, ◌⊎◌, inl, inr, Option, none, some,
  List, [], ◌∷◌, ◌++◌, length, length-append, JsString, if◌then◌else◌,
}
use bare_network_inspect.Sink.{ws_open, ws_message_out, ws_message_in}
use bare_network_inspect.Adapter.{
  WireData, byte_length, Call, returned, threw, outcome, EnvelopeHint, ProbeEvent, Tap, emit_at,
  emit_or_skip, emit_and_throw, caught,
}
use bare_network_inspect.Adapter.Run.{Op, run, run_plain, IsTransparentSend, run-run_plain}
use bare_network_inspect.Adapter.DataChannel
use bare_network_inspect.Adapter.Stream
use bare_network_inspect.Adapter.Socket

-- A clock that returns at every reading.
abbrev pub Ticks : {E : Type 0} → (ℕ → Call E ℕ) → Type 0
Ticks now = (n : ℕ) → (t : ℕ) × (now n ≡ returned t)

pub Call-cases :
    {E A : Type 0} (c : Call E A) → ((a : A) × (c ≡ returned a)) ⊎ ((e : E) × (c ≡ threw e))
Call-cases (returned a) = inl (a, refl)
Call-cases (threw e) = inr (e, refl)

module _ {E F S : Type 0} (now : ℕ → Call E ℕ) where
  pub emit_at-channel :
      (event : ℕ → ProbeEvent F) (s : Tap F S) → (emit_at now event s).0.channel ≡ s.channel
  unfolding emit_at
  emit_at-channel event s = ground arith

-- The event that tells of a call: one where it returned, another where it threw.
abbrev pub told {ℓ} : {E R : Type 0} {A : Type ℓ} → (A → E → A) → A → Call E R → A
told failed sent (returned r) = sent
told failed sent (threw err) = failed sent err

module _ {E F S : Type 0} (now : ℕ → Call E ℕ) (message_of : E → JsString)
    (peer_id : JsString) where
  pub channel_incoming :
      (decode_envelope : WireData → Call E (Option (EnvelopeHint F))) (s : Tap F S)
      (i : DataChannel.Incoming)
      → (DataChannel.on_incoming now message_of decode_envelope peer_id s i).channel ≡ s.channel
  unfolding DataChannel.on_incoming emit_or_skip
  channel_incoming decode_envelope s (DataChannel.message payload) =
      elim (Call-cases (decode_envelope payload)) [
        | inl (env, q) ↦ ground (
          arith,
          emit_at-channel now (DataChannel.received_event peer_id env (byte_length payload)) s,
        )
        | inr (x, q) ↦ ground arith
      ]
  channel_incoming decode_envelope s DataChannel.buffered_amount_low =
      emit_at-channel now (DataChannel.clear_event peer_id) s

  pub stream_incoming :
      (decode_envelope : WireData → Call E (Option (EnvelopeHint F))) (s : Tap F S)
      (i : Stream.Incoming)
      → (Stream.on_incoming now message_of decode_envelope peer_id s i).channel ≡ s.channel
  unfolding Stream.on_incoming emit_or_skip
  stream_incoming decode_envelope s (Stream.chunk payload) =
      elim (Call-cases (decode_envelope (Stream.as_string payload))) [
        | inl (env, q) ↦
            ground
              (arith, emit_at-channel now (Stream.chunk_event peer_id env (byte_length payload)) s)
        | inr (x, q) ↦ ground arith
      ]
  stream_incoming decode_envelope s Stream.close =
      emit_at-channel now (Stream.close_event peer_id) s

  pub socket_incoming :
      (url : JsString) (s : Tap F S) (i : Socket.Incoming)
      → (Socket.on_incoming now message_of peer_id url s i).channel ≡ s.channel
  unfolding Socket.on_incoming emit_or_skip
  socket_incoming url s Socket.opened =
      emit_at-channel now (Socket.socket_event peer_id url ws_open) s
  socket_incoming url s (Socket.close code reason) =
      emit_at-channel now (Socket.close_event peer_id url code reason) s
  socket_incoming url s Socket.failure = emit_at-channel now (Socket.error_event peer_id url) s
  socket_incoming url s (Socket.message payload) =
      emit_at-channel now (Socket.bytes_event peer_id url ws_message_in (byte_length payload)) s
