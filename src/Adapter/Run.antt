-- ===== src/Adapter/Run.antt =====
-- An application on an instrumented object, and on the object alone: sends, the host's own changes of
-- the transport, incoming events, and the removal of the probe, in any order.
use bare_network_inspect.Base.{◌≡◌, refl, ap, ◌∙◌, arith, List, [], ◌∷◌, if◌then◌else◌}
use bare_network_inspect.Adapter.{WireData, Call, Tap}

pub data Op (S I : Type 0) : Type 0 where
  send : WireData → Op S I
  change : S → Op S I
  incoming : I → Op S I
  remove : Op S I

module _ {E R S I : Type 0} (orig_send : WireData → S → S × Call E R) where
  -- The object alone: what each send gave the application, and the transport in the end.
  unfoldable pub run_plain : S → List (Op S I) → S × List (Call E R)
  run_plain ch [] = (ch, [])
  run_plain ch (send payload ∷ ops) =
      let out = orig_send payload ch in let rest = run_plain out.0 ops in (rest.0, out.1 ∷ rest.1)
  run_plain ch (change ch' ∷ ops) = run_plain ch' ops
  run_plain ch (incoming i ∷ ops) = run_plain ch ops
  run_plain ch (remove ∷ ops) = run_plain ch ops

  module _ {F : Type 0} (probe_send : Tap F S → WireData → Tap F S × Call E R)
      (on_incoming : Tap F S → I → Tap F S) (restore : Tap F S → Tap F S) where
    -- `obj.send(data)`, the probe's function or the object's own.
    unfoldable pub call_send : Tap F S → WireData → Tap F S × Call E R
    call_send s payload = if s.hooked then probe_send s payload else (
      record s { channel = (orig_send payload s.channel).0 },
      (orig_send payload s.channel).1,
    )

    unfoldable pub dispatch : Tap F S → I → Tap F S
    dispatch s i = if s.listening then on_incoming s i else s

    -- The object with the probe.
    unfoldable pub run : Tap F S → List (Op S I) → Tap F S × List (Call E R)
    run s [] = (s, [])
    run s (send payload ∷ ops) =
        let out = call_send s payload in let rest = run out.0 ops in (rest.0, out.1 ∷ rest.1)
    run s (change ch ∷ ops) = run (record s { channel = ch }) ops
    run s (incoming i ∷ ops) = run (dispatch s i) ops
    run s (remove ∷ ops) = run (restore s) ops

    -- A probe of a call: the application gets what it would get without, and one event is emitted.
    abbrev pub IsTransparentSend : Type 0
    IsTransparentSend =
        (s : Tap F S) (payload : WireData)
        → ((probe_send s payload).1 ≡ (orig_send payload s.channel).1)
          × ((probe_send s payload).0.channel ≡ (orig_send payload s.channel).0)

    call_send-orig :
        IsTransparentSend
        → (s : Tap F S) (payload : WireData)
        → ((call_send s payload).1 ≡ (orig_send payload s.channel).1)
          × ((call_send s payload).0.channel ≡ (orig_send payload s.channel).0)
    unfolding call_send
    call_send-orig h s payload = (ground (arith, (h s payload).0), ground (arith, (h s payload).1))

    at :
        {ch ch' : S} (ops : List (Op S I)) (out : Tap F S × List (Call E R))
        → ch ≡ ch'
        → (out.1 ≡ (run_plain ch ops).1) × (out.0.channel ≡ (run_plain ch ops).0)
        → (out.1 ≡ (run_plain ch' ops).1) × (out.0.channel ≡ (run_plain ch' ops).0)
    at ops out e r =
        (r.0 ∙ ap (λ (c : S). (run_plain c ops).1) e, r.1 ∙ ap (λ (c : S). (run_plain c ops).0) e)

    -- Whatever keeps the transport of the object may be done to it between the calls.
    pub run-run_plain :
        IsTransparentSend
        → ((s : Tap F S) (i : I) → (on_incoming s i).channel ≡ s.channel)
        → ((s : Tap F S) → (restore s).channel ≡ s.channel)
        → (s : Tap F S) (ops : List (Op S I))
        → ((run s ops).1 ≡ (run_plain s.channel ops).1)
          × ((run s ops).0.channel ≡ (run_plain s.channel ops).0)
    unfolding run run_plain dispatch
    run-run_plain h k l s [] = (refl, refl)
    run-run_plain h k l s (send payload ∷ ops) =
        let c = call_send-orig h s payload in
        let r = run-run_plain h k l (call_send s payload).0 ops in
        rw (← c.0, ← c.1) (rw r.0 refl, r.1)
    run-run_plain h k l s (change ch ∷ ops) = run-run_plain h k l (record s { channel = ch }) ops
    run-run_plain h k l s (incoming i ∷ ops) =
        let r = run-run_plain h k l (dispatch s i) ops in
        let e : (dispatch s i).channel ≡ s.channel = ground (arith, k s i) in
        at ops (run (dispatch s i) ops) e r
    run-run_plain h k l s (remove ∷ ops) =
        at ops (run (restore s) ops) (l s) (run-run_plain h k l (restore s) ops)
