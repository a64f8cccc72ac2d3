-- ===== src/Adapter/Transparent/Runs.antt =====
-- Whole runs of an application on an object with a tap of packages/bare-probe/adapters.
use bare_network_inspect.Base.{ℕ, ◌≡◌, refl, Bool, Option, List, JsString}
use bare_network_inspect.Adapter.{WireData, Call, EnvelopeHint, Tap}
use bare_network_inspect.Adapter.Run.{Op, run, run_plain, run-run_plain}
use bare_network_inspect.Adapter.DataChannel
use bare_network_inspect.Adapter.Stream
use bare_network_inspect.Adapter.Socket
use bare_network_inspect.Adapter.Transparent.{
  Ticks, socket_incoming, channel_incoming, stream_incoming,
}
use bare_network_inspect.Adapter.Transparent.Sends.{
  instrumented_send-orig_send, instrumented_write-orig_write, socket_send,
}

module _ {E F S R : Type 0} (now : ℕ → Call E ℕ) (message_of : E → JsString)
    (peer_id : JsString) where
  -- With a time that can be read, an application that sends on a tapped socket gets the results, and
  -- leaves the socket, as without a tap; the page cannot remove that one.
  pub run-Socket :
      (url : JsString) (orig_send : WireData → S → S × Call E R)
      → Ticks now
      → (s : Tap F S) (ops : List (Op S Socket.Incoming))
      → let out =
          run orig_send
            (Socket.instrumented_send now message_of peer_id url orig_send)
            (Socket.on_incoming now message_of peer_id url)
            (λ s. s)
            s
            ops in
        (out.1 ≡ (run_plain orig_send s.channel ops).1)
        × (out.0.channel ≡ (run_plain orig_send s.channel ops).0)
  run-Socket url orig_send h s ops =
      run-run_plain orig_send (Socket.instrumented_send now message_of peer_id url orig_send)
        (Socket.on_incoming now message_of peer_id url) (λ s. s)
        (λ s payload.
          let k = socket_send now message_of peer_id url orig_send h s payload in (k.0, k.1))
        (socket_incoming now message_of peer_id url) (λ s. refl) s ops

  module _ (decode_envelope : WireData → Call E (Option (EnvelopeHint F))) where
    -- With a time that can be read, an application that sends on a tapped data channel, while messages
    -- come in, the channel changes and the tap is removed, in any order, gets the results, and leaves
    -- the channel, as without a tap.
    pub run-DataChannel :
        (orig_send : WireData → S → S × Call E R) (buffered_amount : S → ℕ) (can_remove : Bool)
        → Ticks now
        → (s : Tap F S) (ops : List (Op S DataChannel.Incoming))
        → let out =
            run orig_send
              (DataChannel.instrumented_send now message_of decode_envelope peer_id orig_send
                buffered_amount)
              (DataChannel.on_incoming now message_of decode_envelope peer_id)
              (DataChannel.restore can_remove)
              s
              ops in
          (out.1 ≡ (run_plain orig_send s.channel ops).1)
          × (out.0.channel ≡ (run_plain orig_send s.channel ops).0)
    unfolding DataChannel.restore
    run-DataChannel orig_send buffered_amount can_remove h s ops =
        run-run_plain orig_send
          (DataChannel.instrumented_send now message_of decode_envelope peer_id orig_send
            buffered_amount)
          (DataChannel.on_incoming now message_of decode_envelope peer_id)
          (DataChannel.restore can_remove)
          (λ s payload.
            let k =
              instrumented_send-orig_send now message_of peer_id decode_envelope orig_send
                buffered_amount h s payload in
            (k.0, k.1))
          (channel_incoming now message_of peer_id decode_envelope) (λ s. refl) s ops

    -- The same of an application that writes to a tapped Hyperswarm stream.
    pub run-Stream :
        (orig_write : WireData → S → S × Call E R) (writable_length : S → Option ℕ)
        (can_remove : Bool)
        → Ticks now
        → (s : Tap F S) (ops : List (Op S Stream.Incoming))
        → let out =
            run orig_write
              (Stream.instrumented_write now message_of decode_envelope peer_id orig_write
                writable_length)
              (Stream.on_incoming now message_of decode_envelope peer_id)
              (Stream.restore can_remove)
              s
              ops in
          (out.1 ≡ (run_plain orig_write s.channel ops).1)
          × (out.0.channel ≡ (run_plain orig_write s.channel ops).0)
    unfolding Stream.restore
    run-Stream orig_write writable_length can_remove h s ops =
        run-run_plain orig_write
          (Stream.instrumented_write now message_of decode_envelope peer_id orig_write
            writable_length)
          (Stream.on_incoming now message_of decode_envelope peer_id) (Stream.restore can_remove)
          (λ s payload.
            let k =
              instrumented_write-orig_write now message_of peer_id decode_envelope orig_write
                writable_length h s payload in
            (k.0, k.1))
          (stream_incoming now message_of peer_id decode_envelope) (λ s. refl) s ops
