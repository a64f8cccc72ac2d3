-- ===== src/Adapter/Transparent/Sends.antt =====
-- One send through a tap of packages/bare-probe/adapters.
use bare_network_inspect.Base.{ℕ, ◌≡◌, arith, inl, inr, Option, [], ◌∷◌, ◌++◌, JsString}
use bare_network_inspect.Sink.{ws_message_out}
use bare_network_inspect.Adapter.{
  WireData, byte_length, Call, EnvelopeHint, Tap, emit_at, emit_and_throw, caught,
}
use bare_network_inspect.Adapter.DataChannel
use bare_network_inspect.Adapter.Stream
use bare_network_inspect.Adapter.Socket
use bare_network_inspect.Adapter.Transparent.{Ticks, Call-cases, told}

module _ {E F S R : Type 0} (now : ℕ → Call E ℕ) (message_of : E → JsString)
    (peer_id : JsString) where
  -- With a time that can be read, a send on a socket that the instrumented class made returns or throws
  -- what the own send does, and emits one event of its outcome.
  pub socket_send :
      (url : JsString) (orig_send : WireData → S → S × Call E R)
      → Ticks now
      → (s : Tap F S) (payload : WireData)
      → let out = Socket.instrumented_send now message_of peer_id url orig_send s payload in
        let own = orig_send payload s.channel in
        (out.1 ≡ own.1)
        × (out.0.channel ≡ own.0)
        × ((t : ℕ) × (out.0.emitted
              ≡ s.emitted
                ++ (told
                      (λ sent err.
                        Socket.failed_event peer_id url (message_of err) (byte_length payload) t)
                      (Socket.bytes_event peer_id url ws_message_out (byte_length payload) t)
                      own.1
                    ∷ [])))
  unfolding Socket.instrumented_send emit_and_throw emit_at
  socket_send url orig_send h s payload =
      let (t, e) = h s.readings in
      elim (Call-cases (orig_send payload s.channel).1) [
        | inl (a, q) ↦ (ground arith, ground arith, (t, ground arith))
        | inr (x, q) ↦ (ground arith, ground arith, (t, ground arith))
      ]

  module _ (decode_envelope : WireData → Call E (Option (EnvelopeHint F))) where
    -- With a time that can be read, a send on the tapped data channel returns or throws what the
    -- channel's own send does, leaves the channel as that does, and emits one event: of the message if
    -- the send returned, of the error if it threw, with the bytes and the bufferedAmount of before.
    pub instrumented_send-orig_send :
        (orig_send : WireData → S → S × Call E R) (buffered_amount : S → ℕ)
        → Ticks now
        → (s : Tap F S) (payload : WireData)
        → let out =
            DataChannel.instrumented_send now message_of decode_envelope peer_id orig_send
              buffered_amount s payload in
          let own = orig_send payload s.channel in
          (out.1 ≡ own.1)
          × (out.0.channel ≡ own.0)
          × ((t : ℕ) × (out.0.emitted
                ≡ s.emitted
                  ++ (told
                        (λ sent err.
                          DataChannel.failed_event peer_id
                            (message_of err)
                            (byte_length payload)
                            (buffered_amount s.channel)
                            t)
                        (DataChannel.sent_event peer_id
                          (caught (decode_envelope payload))
                          (byte_length payload)
                          (buffered_amount s.channel)
                          t)
                        own.1
                      ∷ [])))
    unfolding DataChannel.instrumented_send emit_and_throw emit_at
    instrumented_send-orig_send orig_send buffered_amount h s payload =
        let (t, e) = h s.readings in
        elim (Call-cases (orig_send payload s.channel).1) [
          | inl (a, q) ↦ (ground arith, ground arith, (t, ground arith))
          | inr (x, q) ↦ (ground arith, ground arith, (t, ground arith))
        ]

    -- The same of a write on the tapped Hyperswarm stream, with the writableLength of before.
    pub instrumented_write-orig_write :
        (orig_write : WireData → S → S × Call E R) (writable_length : S → Option ℕ)
        → Ticks now
        → (s : Tap F S) (payload : WireData)
        → let out =
            Stream.instrumented_write now message_of decode_envelope peer_id orig_write
              writable_length s payload in
          let own = orig_write payload s.channel in
          (out.1 ≡ own.1)
          × (out.0.channel ≡ own.0)
          × ((t : ℕ) × (out.0.emitted
                ≡ s.emitted
                  ++ (told
                        (λ sent err.
                          Stream.failed_event peer_id
                            (message_of err)
                            (byte_length payload)
                            (writable_length s.channel)
                            t)
                        (Stream.written_event peer_id
                          (caught (decode_envelope payload))
                          (byte_length payload)
                          (writable_length s.channel)
                          t)
                        own.1
                      ∷ [])))
    unfolding Stream.instrumented_write emit_and_throw emit_at
    instrumented_write-orig_write orig_write writable_length h s payload =
        let (t, e) = h s.readings in
        elim (Call-cases (orig_write payload s.channel).1) [
          | inl (a, q) ↦ (ground arith, ground arith, (t, ground arith))
          | inr (x, q) ↦ (ground arith, ground arith, (t, ground arith))
        ]
