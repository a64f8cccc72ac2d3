-- ===== src/Observe/Reporter/Queue.antt =====
-- What a reporter keeps and what it sends.
use bare_network_inspect.Base.{
  ℕ, ◌+◌, ◌-◌, ◌≤◌, ◌<◌, ◌≡◌, refl, ◌∙◌, arith, Bool, true, none, some, List, [], ◌∷◌, ◌++◌, length,
  length-append, length-drop, keep_last, keep_last-snoc, keep_last-le, dec_lt, drop-append_le,
}
use bare_network_inspect.Observe.Reporter.{
  Reporter, push_queue, enqueue, raw_send, send_all, ensure, on_open, on_close, export_event,
  export_events, export, close, set_ready, Op, exported, ready, opened, lost, ended, step, run,
}

module _ {A : Type 0} (max_queue : ℕ) where
  pub push_queue-keep_last :
      (seen : List A) (ev : A)
      → 0 < max_queue
      → push_queue max_queue (keep_last max_queue seen) ev ≡ keep_last max_queue (seen ++ (ev ∷ []))
  unfolding push_queue
  push_queue-keep_last seen ev h = elim (dec_lt max_queue (length seen + 1)) [
    | yes k ↦
        let q = keep_last max_queue seen in
        let n : length q ≡ max_queue = omega (arith, length-drop (length seen - max_queue) seen) in
        ground (
          arith,
          length-append q (ev ∷ []),
          drop-append_le 1 q (ev ∷ []) (omega arith),
          keep_last-snoc max_queue seen ev k h,
        )
    | no k ↦ ground (
      arith,
      keep_last-le max_queue seen (omega arith),
      keep_last-le max_queue (seen ++ (ev ∷ [])) (omega (arith, length-append seen (ev ∷ []))),
      length-append seen (ev ∷ []),
    )
  ]

  push_queue-le :
      (q : List A) (ev : A) → length q ≤ max_queue → length (push_queue max_queue q ev) ≤ max_queue
  unfolding push_queue
  push_queue-le q ev h = ground (arith, length-append q (ev ∷ []), length-drop 1 (q ++ (ev ∷ [])))

  module _ (sends_ok : ℕ → Bool) where
    raw_send-le :
        (r : Reporter A) (ev : A)
        → length r.queue ≤ max_queue
        → length (raw_send max_queue sends_ok r ev).queue ≤ max_queue
    unfolding raw_send enqueue
    raw_send-le r ev h = ground (arith, push_queue-le r.queue ev h)

    send_all-le :
        (r : Reporter A) (evs : List A)
        → length r.queue ≤ max_queue
        → length (send_all max_queue sends_ok r evs).queue ≤ max_queue
    unfolding send_all
    send_all-le r [] h = h
    send_all-le r (ev ∷ evs) h =
        send_all-le (raw_send max_queue sends_ok r ev) evs (raw_send-le r ev h)

    export_events-le :
        (r : Reporter A) (evs : List A)
        → length r.queue ≤ max_queue
        → length (export_events max_queue sends_ok r evs).queue ≤ max_queue
    unfolding export_events export_event enqueue
    export_events-le r [] h = h
    export_events-le r (ev ∷ evs) h =
        export_events-le (export_event max_queue sends_ok r ev) evs
          (ground (arith, raw_send-le r ev h, push_queue-le r.queue ev h))

    step-le :
        (r : Reporter A) (op : Op A)
        → length r.queue ≤ max_queue
        → length (step max_queue sends_ok r op).queue ≤ max_queue
    unfolding step export ensure set_ready on_open on_close close
    step-le r (exported i c batch) h = ground (arith, export_events-le (ensure i c r) batch)
    step-le r (ready s) h = ground arith
    step-le r (opened none) h = send_all-le (record r { queue = [] }) r.queue (omega arith)
    step-le r (opened (some a)) h =
        let r' = raw_send max_queue sends_ok r a in
        send_all-le (record r' { queue = [] }) r'.queue (omega arith)
    step-le r lost h = h
    step-le r ended h = h

    -- A queue of at most maxQueue events stays within that, after any calls and events of the sockets.
    pub run-le :
        (r : Reporter A) (ops : List (Op A))
        → length r.queue ≤ max_queue
        → length (run max_queue sends_ok r ops).queue ≤ max_queue
    unfolding run
    run-le r [] h = h
    run-le r (op ∷ ops) h = run-le (step max_queue sends_ok r op) ops (step-le r op h)

    send_all-unsent :
        (r : Reporter A) (evs : List A)
        → r.ws ≡ none
        → ((send_all max_queue sends_ok r evs).sent ≡ r.sent)
          × ((send_all max_queue sends_ok r evs).ws ≡ none)
          × ((send_all max_queue sends_ok r evs).closed ≡ r.closed)
    unfolding send_all raw_send enqueue
    send_all-unsent r [] h = (refl, h, refl)
    send_all-unsent r (ev ∷ evs) h =
        let k = send_all-unsent (raw_send max_queue sends_ok r ev) evs (ground arith) in
        (ground (arith, k.0), ground (arith, k.1), ground (arith, k.2))

    -- What a closed reporter is, and stays.
    abbrev IsClosed : Reporter A → Type 0
    IsClosed r = (r.closed ≡ true) × (r.ws ≡ none)

    step-IsClosed :
        (r : Reporter A) (op : Op A)
        → IsClosed r
        → ((step max_queue sends_ok r op).sent ≡ r.sent) × IsClosed (step max_queue sends_ok r op)
    unfolding step export set_ready on_open on_close close raw_send enqueue send_all
    step-IsClosed r (exported i c batch) h =
        (ground (arith, h.0), (ground (arith, h.0), ground (arith, h.0, h.1)))
    step-IsClosed r (ready s) h =
        (ground (arith, h.1), (ground (arith, h.0, h.1), ground (arith, h.1)))
    step-IsClosed r (opened none) h =
        let k = send_all-unsent (record r { queue = [] }) r.queue h.1 in (k.0, (k.2 ∙ h.0, k.1))
    step-IsClosed r (opened (some a)) h =
        let r' = raw_send max_queue sends_ok r a in
        let u = send_all-unsent r (a ∷ []) h.1 in
        let k = send_all-unsent (record r' { queue = [] }) r'.queue u.1 in
        (k.0 ∙ u.0, (k.2 ∙ u.2 ∙ h.0, k.1))
    step-IsClosed r lost h = (refl, (h.0, refl))
    step-IsClosed r ended h = (refl, (refl, refl))

    stays :
        (r : Reporter A) (ops : List (Op A))
        → IsClosed r
        → (run max_queue sends_ok r ops).sent ≡ r.sent
    unfolding run
    stays r [] h = refl
    stays r (op ∷ ops) h =
        let k = step-IsClosed r op h in stays (step max_queue sends_ok r op) ops k.1 ∙ k.0

    -- After `close` nothing more is sent, whatever is called and whatever the sockets do.
    pub run-close :
        (r : Reporter A) (ops : List (Op A)) → (run max_queue sends_ok (close r) ops).sent ≡ r.sent
    unfolding close
    run-close r ops = stays (close r) ops (refl, refl)
