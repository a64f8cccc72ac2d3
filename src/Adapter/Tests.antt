-- ===== src/Adapter/Tests.antt =====
-- Runs of the taps of packages/bare-probe/adapters.
use bare_network_inspect.Base.{
  ℕ, ◌+◌, ◌*◌, ◌≤◌, ◌≡◌, refl, Bool, true, false, Option, none, some, List, [], ◌∷◌, ◌++◌, All, ltb,
  if◌then◌else◌, JsString, ascii, same, ℕ_discrete, map_get,
}
use bare_network_inspect.Registry.{is_same}
use bare_network_inspect.Adapter.{
  WireData, string, byte_length, Call, returned, threw, EnvelopeHint, Tap, caught,
  best_effort_decode, emit_at, emit_and_throw,
}
use bare_network_inspect.Adapter.DataChannel
use bare_network_inspect.Adapter.Stream.{key_bytes, public_key_to_peer_id, hex_of}
use bare_network_inspect.Adapter.Socket.{
  missing, is_probe_disabled_by_build, is_release, is_production,
}
use bare_network_inspect.Adapter.Run.{Op, send, change, incoming, remove, run, run_plain}
use bare_network_inspect.Adapter.Stats
use bare_network_inspect.Adapter.Stats.{
  StatEntry, flag, number, filter, find, or_else, first, is_pair, is_selected, is_nominated,
  has_text, has_flag, text_of, flag_of, pick_candidate_pair, extract_relevant, array_like,
}
use bare_network_inspect.Adapter.Stats.Pick.{rank, pick_candidate_pair_best}
use bare_network_inspect.Adapter.Transparent.{told}
use bare_network_inspect.Adapter.Transparent.Sends.{instrumented_send-orig_send}
use bare_network_inspect.Adapter.Transparent.Runs.{run-DataChannel}
use bare_network_inspect.Registry.{hex_digit}

-- A clock, a channel that takes three messages and then throws 7, and a decoder.
abbrev clock : ℕ → Call ℕ ℕ
clock n = returned (10 * n)

abbrev own_send : WireData → ℕ → ℕ × Call ℕ ℕ
own_send payload ch = if ltb ch 3 then (ch + 1, returned ch) else (ch, threw 7)

abbrev full : ℕ → JsString
full e = ascii "full"

abbrev decode : WireData → Call ℕ (Option (EnvelopeHint (Unit {0})))
decode payload = returned (best_effort_decode (λ s. none) payload)

abbrev tap : Tap (Unit {0}) ℕ
tap = record { channel = 2; hooked = true; listening = true; emitted = []; readings = 0 }

abbrev hello : WireData
hello = string (ascii "hi")

abbrev amount : ℕ → ℕ
amount ch = ch

instrumented_send-orig_send_example :
    let out =
      DataChannel.instrumented_send clock full decode (ascii "p") own_send amount tap hello in
    let own = own_send hello 2 in
    (out.1 ≡ own.1)
    × (out.0.channel ≡ own.0)
    × ((t : ℕ) × (out.0.emitted
          ≡ []
            ++ (told
                  (λ sent err.
                    DataChannel.failed_event
                      (ascii "p")
                      (full err)
                      (byte_length hello)
                      (amount 2)
                      t)
                  (DataChannel.sent_event
                    (ascii "p")
                    (caught (decode hello))
                    (byte_length hello)
                    (amount 2)
                    t)
                  own.1
                ∷ [])))
instrumented_send-orig_send_example =
    instrumented_send-orig_send clock full (ascii "p") decode own_send amount (λ n. (10 * n, refl))
      tap hello

abbrev ops : List (Op ℕ DataChannel.Incoming)
ops =
    send hello
    ∷ incoming (DataChannel.message hello)
    ∷ send hello
    ∷ change 0
    ∷ remove
    ∷ send hello
    ∷ []

run-DataChannel_example :
    let out =
      run own_send
        (DataChannel.instrumented_send clock full decode (ascii "p") own_send amount)
        (DataChannel.on_incoming clock full decode (ascii "p"))
        (DataChannel.restore true)
        tap
        ops in
    (out.1 ≡ (run_plain own_send 2 ops).1) × (out.0.channel ≡ (run_plain own_send 2 ops).0)
run-DataChannel_example =
    run-DataChannel clock full (ascii "p") decode own_send amount true (λ n. (10 * n, refl)) tap ops

-- The second send is the one that throws, and the application sees it.
plain_results : (run_plain own_send 2 ops).1 ≡ returned 2 ∷ threw 7 ∷ returned 0 ∷ []
unfolding run_plain
plain_results = refl

key_hex : public_key_to_peer_id (key_bytes (0 ∷ 0xab ∷ [])) ≡ some (ascii "00ab")
unfolding public_key_to_peer_id hex_of hex_digit
key_hex = refl

-- Without a signal the probe stays enabled.
no_signal : is_probe_disabled_by_build missing missing ≡ false
unfolding is_probe_disabled_by_build is_release is_production
no_signal = refl

abbrev pair_entry : Bool → StatEntry ℕ
pair_entry b = (ascii "type", Stats.text (ascii "candidate-pair")) ∷ (ascii "selected", flag b) ∷ []

abbrev entries : List (StatEntry ℕ)
entries =
    ((ascii "type", Stats.text (ascii "inbound-rtp")) ∷ [])
    ∷ pair_entry false
    ∷ pair_entry true
    ∷ []

picks : pick_candidate_pair entries ≡ some (pair_entry true)
unfolding pick_candidate_pair filter find or_else is_pair is_selected has_text has_flag text_of
    flag_of map_get is_same same ℕ_discrete
picks = refl

pick_candidate_pair_best_example :
    (is_pair (pair_entry true) ≡ true) × All (λ e. rank e ≤ rank (pair_entry true)) entries
pick_candidate_pair_best_example = pick_candidate_pair_best entries (pair_entry true) picks

-- A clock that throws makes a send throw that the channel has done: the app is told of a failure.
broken_clock :
    let broken : ℕ → Call ℕ ℕ = λ n. threw 9 in
    let out =
      DataChannel.instrumented_send broken full decode (ascii "p") own_send amount tap hello in
    (out.1 ≡ threw 9) × (out.0.channel ≡ 3) × (out.0.emitted ≡ [])
unfolding DataChannel.instrumented_send emit_at emit_and_throw
broken_clock = (refl, refl, refl)
