-- ===== src/Observe/Reporter/Flush.antt =====
-- What a viewer that connects late is sent.
use bare_network_inspect.Base.{
  ℕ, ◌<◌, ◌≡◌, refl, sym, ap, ◌∙◌, arith, Bool, true, false, some, List, [], ◌∷◌, ◌++◌,
  append_assoc, append-nil, keep_last, keep_last-le,
}
use bare_network_inspect.Observe.Exporter.Delivery.{events}
use bare_network_inspect.Observe.Reporter.{
  Reporter, connecting, open_state, new_reporter, is_open, is_connected, is_live, enqueue, raw_send,
  send_all, ensure, on_open, export_event, export_events, export, set_ready, Op, exported, ready,
  opened, step, run,
}
use bare_network_inspect.Observe.Reporter.Queue.{push_queue-keep_last}

module _ {A : Type 0} where
  -- The flusher's calls, one for each batch.
  abbrev pub exports : List (List A) → List (Op A)
  exports [] = []
  exports (batch ∷ batches) = exported true true batch ∷ exports batches

  -- A reporter whose first socket is not open yet.
  abbrev down : List A → Reporter A
  down q = record {
    ws = some connecting;
    queue = q;
    closed = false;
    sent = [];
    sends = 0;
    reconnects = 0;
  }

  module _ (max_queue : ℕ) (sends_ok : ℕ → Bool) where
    run-append :
        (r : Reporter A) (xs ys : List (Op A))
        → run max_queue sends_ok r (xs ++ ys)
          ≡ run max_queue sends_ok (run max_queue sends_ok r xs) ys
    unfolding run
    run-append r [] ys = refl
    run-append r (x ∷ xs) ys = run-append (step max_queue sends_ok r x) xs ys

    waiting :
        (seen evs : List A)
        → 0 < max_queue
        → export_events max_queue sends_ok (down (keep_last max_queue seen)) evs
          ≡ down (keep_last max_queue (seen ++ evs))
    unfolding export_events export_event is_open enqueue
    waiting seen [] h = ap (λ (q : List A). down (keep_last max_queue q)) (sym (append-nil seen))
    waiting seen (ev ∷ evs) h =
        ap (λ (q : List A). export_events max_queue sends_ok (down q) evs)
          (push_queue-keep_last max_queue seen ev h)
        ∙ waiting (seen ++ (ev ∷ [])) evs h
        ∙ ap (λ (q : List A). down (keep_last max_queue q)) (append_assoc seen (ev ∷ []) evs)

    waiting_all :
        (seen : List A) (batches : List (List A))
        → 0 < max_queue
        → run max_queue sends_ok (down (keep_last max_queue seen)) (exports batches)
          ≡ down (keep_last max_queue (seen ++ events batches))
    unfolding run step export ensure is_connected is_live
    waiting_all seen [] h =
        ap (λ (q : List A). down (keep_last max_queue q)) (sym (append-nil seen))
    waiting_all seen (b ∷ bs) h =
        ap (λ (r : Reporter A). run max_queue sends_ok r (exports bs)) (waiting seen b h)
        ∙ waiting_all (seen ++ b) bs h
        ∙ ap (λ (q : List A). down (keep_last max_queue q)) (append_assoc seen b (events bs))

    module _ (sends : (n : ℕ) → sends_ok n ≡ true) where
      send_all_lem :
          (r : Reporter A) (evs : List A)
          → r.ws ≡ some open_state
          → ((send_all max_queue sends_ok r evs).sent ≡ r.sent ++ evs)
            × ((send_all max_queue sends_ok r evs).queue ≡ r.queue)
      unfolding send_all raw_send
      send_all_lem r [] h = (sym (append-nil r.sent), refl)
      send_all_lem r (ev ∷ evs) h =
          let k =
            send_all_lem (raw_send max_queue sends_ok r ev) evs (ground (arith, sends r.sends)) in
          (
            ground (arith, k.0, sends r.sends, append_assoc r.sent (ev ∷ []) evs),
            ground (arith, k.1, sends r.sends),
          )

      open_lem :
          (a : A) (q : List A)
          → let r = run max_queue sends_ok (down q) (ready open_state ∷ opened (some a) ∷ []) in
            (r.sent ≡ a ∷ q) × (r.queue ≡ [])
      unfolding run step set_ready on_open raw_send
      open_lem a q = rw (sends 0) (
          send_all_lem
            (record {
              ws = some open_state;
              queue = [];
              closed = false;
              sent = a ∷ [];
              sends = 1;
              reconnects = 0;
            })
            q refl)

      -- Batches that are flushed while the first socket connects are sent when it opens: after the
      -- announcement of the source come the newest maxQueue events of all of them, in order, and
      -- nothing waits any more, if no send throws and maxQueue is not 0.
      pub run-opened :
          (a : A) (batch : List A) (batches : List (List A))
          → 0 < max_queue
          → let r =
              run max_queue sends_ok new_reporter
                (exports (batch ∷ batches) ++ (ready open_state ∷ opened (some a) ∷ [])) in
            (r.sent ≡ a ∷ keep_last max_queue (events (batch ∷ batches))) × (r.queue ≡ [])
      unfolding run step export ensure is_connected is_live
      run-opened a batch batches h =
          let started : run max_queue sends_ok new_reporter (exports (batch ∷ batches))
              ≡ run max_queue sends_ok (down []) (exports (batch ∷ batches)) =
            refl in
          let empty = keep_last-le {A = A} max_queue [] (omega arith) in
          let before : run max_queue sends_ok new_reporter (exports (batch ∷ batches))
              ≡ down (keep_last max_queue (events (batch ∷ batches))) =
            started
            ∙ ap (λ (q : List A). run max_queue sends_ok (down q) (exports (batch ∷ batches)))
                (sym empty)
            ∙ waiting_all [] (batch ∷ batches) h in
          rw
            (
              run-append new_reporter (exports (batch ∷ batches))
                  (ready open_state ∷ opened (some a) ∷ []),
              before,
            )
            (open_lem a (keep_last max_queue (events (batch ∷ batches))))
