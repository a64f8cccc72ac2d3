-- ===== src/Flush/Counters.antt =====
-- The counters, the staging bound and the timer of the flusher of flush.ts, over any run.
use bare_network_inspect.Base.{
  ℕ, suc, ◌+◌, ◌<◌, ◌≡◌, refl, ap, ◌∙◌, inl, inr, Option, none, some, List, [], ◌∷◌, ◌++◌,
  append-nil, arith, Option-cases, length, length-append, JsString, ℕ_discrete, ite,
}
use bare_network_inspect.Flush.{
  BatchFlusher, Call, ship, set_interval, clear_interval, is_full, ship_batch, flush_now, add,
  start, stop,
}
use bare_network_inspect.Flush.Run.{
  Op, stage, tick, arm, disarm, ships, running, step, run, lost_batches, lost_rows,
}
use bare_network_inspect.Flush.Delivery.{ships-append}

module _ {ℓ} {A : Type ℓ} where
  running-append :
      (on : List ℕ) (cs ds : List (Call A)) → running on (cs ++ ds) ≡ running (running on cs) ds
  unfolding running
  running-append on [] ds = refl
  running-append on (ship xs ∷ cs) ds = running-append on cs ds
  running-append on (set_interval ms h ∷ cs) ds = running-append (h ∷ on) cs ds
  running-append [] (clear_interval h ∷ cs) ds = running-append [] cs ds
  running-append (j ∷ on) (clear_interval h ∷ cs) ds =
      running-append (ite (ℕ_discrete j h) on (j ∷ on)) cs ds

  -- The interval that runs is the one that the flusher holds.
  abbrev pub TimerMatches : BatchFlusher A → Type 0
  TimerMatches f = running [] f.calls ≡ elim f.handle [ none ↦ [] | some h ↦ h ∷ [] ]

  -- Besides, fewer rows wait than `maxBatch`.
  abbrev pub Safe : ℕ → BatchFlusher A → Type 0
  Safe limit f = TimerMatches f × (f.max_batch ≡ some limit) × (length f.batch < limit)

module _ {ℓ} {A : Type ℓ} (on_flush : ℕ → List A → Option JsString) where
  lost_batches-append :
      (n : ℕ) (xss : List (List A)) (xs : List A)
      → lost_batches on_flush n (xss ++ (xs ∷ []))
        ≡ lost_batches on_flush n xss
          + elim (on_flush (n + length xss) xs) [ none ↦ 0 | some err ↦ 1 ]
  unfolding lost_batches
  lost_batches-append n [] xs = ground (
    arith,
    ap {B = ℕ} (λ k. elim (on_flush k xs) [ none ↦ 0 | some err ↦ 1 ]) {x = n} {y = n + 0}
        (omega arith),
  )
  lost_batches-append n (ys ∷ xss) xs = ground (
    arith,
    lost_batches-append (n + 1) xss xs,
    ap {B = ℕ} (λ k. elim (on_flush k xs) [ none ↦ 0 | some err ↦ 1 ]) {x = n + 1 + length xss}
        {y = n + suc (length xss)} (omega arith),
  )

  lost_rows-append :
      (n : ℕ) (xss : List (List A)) (xs : List A)
      → lost_rows on_flush n (xss ++ (xs ∷ []))
        ≡ lost_rows on_flush n xss
          + elim (on_flush (n + length xss) xs) [ none ↦ 0 | some err ↦ length xs ]
  unfolding lost_rows
  lost_rows-append n [] xs = ground (
    arith,
    ap {B = ℕ} (λ k. elim (on_flush k xs) [ none ↦ 0 | some err ↦ length xs ]) {x = n} {y = n + 0}
        (omega arith),
  )
  lost_rows-append n (ys ∷ xss) xs = ground (
    arith,
    lost_rows-append (n + 1) xss xs,
    ap {B = ℕ} (λ k. elim (on_flush k xs) [ none ↦ 0 | some err ↦ length xs ])
        {x = n + 1 + length xss} {y = n + suc (length xss)} (omega arith),
  )

  -- The counters say what happened in `calls`.
  abbrev pub CountersMatch : BatchFlusher A → Type 0
  CountersMatch f =
      (f.flush_count ≡ length (ships f.calls))
      × (f.dropped_batches ≡ lost_batches on_flush 0 (ships f.calls))
      × (f.dropped_rows ≡ lost_rows on_flush 0 (ships f.calls))

  flush_now-CountersMatch :
      (f : BatchFlusher A) → CountersMatch f → CountersMatch (flush_now on_flush f)
  unfolding flush_now ship_batch ships
  flush_now-CountersMatch f m = elim (Option-cases (on_flush f.flush_count f.batch)) [
    | inl e ↦ ground (
      arith,
      ships-append f.calls (ship f.batch ∷ []),
      length-append (ships f.calls) (f.batch ∷ []),
      lost_batches-append 0 (ships f.calls) f.batch,
      lost_rows-append 0 (ships f.calls) f.batch,
    )
    | inr (err, e) ↦ ground (
      arith,
      ships-append f.calls (ship f.batch ∷ []),
      length-append (ships f.calls) (f.batch ∷ []),
      lost_batches-append 0 (ships f.calls) f.batch,
      lost_rows-append 0 (ships f.calls) f.batch,
    )
  ]

  add-CountersMatch :
      (f : BatchFlusher A) (x : A) → CountersMatch f → CountersMatch (add on_flush f x)
  unfolding add
  add-CountersMatch f x m =
      ground (arith, flush_now-CountersMatch (record f { batch = f.batch ++ (x ∷ []) }) m)

  start-CountersMatch : (f : BatchFlusher A) (h : ℕ) → CountersMatch f → CountersMatch (start f h)
  unfolding start ships
  start-CountersMatch f h m =
      ground (
        arith,
        ships-append f.calls (set_interval f.interval_ms h ∷ []),
        append-nil (ships f.calls),
      )

  stop-CountersMatch : (f : BatchFlusher A) → CountersMatch f → CountersMatch (stop on_flush f)
  unfolding stop ships
  stop-CountersMatch f m = elim (Option-cases f.handle) [
    | inl e ↦ ground arith
    | inr (h, e) ↦ ground (
      arith,
      flush_now-CountersMatch
          (record f { handle = none; calls = f.calls ++ (clear_interval h ∷ []) }),
      ships-append f.calls (clear_interval h ∷ []),
      append-nil (ships f.calls),
    )
  ]

  -- Over any run, `flushCount` is the number of batches handed to `on_flush`, `droppedBatches` the
  -- number of those calls that threw, and `droppedRows` the number of rows in them, where this held
  -- before the run, as it does of a new flusher.
  pub run-CountersMatch :
      (f : BatchFlusher A) (ops : List (Op A))
      → CountersMatch f
      → CountersMatch (run on_flush f ops)
  unfolding run step
  run-CountersMatch f [] m = m
  run-CountersMatch f (stage x ∷ ops) m =
      run-CountersMatch (add on_flush f x) ops (add-CountersMatch f x m)
  run-CountersMatch f (tick ∷ ops) m =
      run-CountersMatch (flush_now on_flush f) ops (flush_now-CountersMatch f m)
  run-CountersMatch f (arm h ∷ ops) m =
      run-CountersMatch (start f h) ops (start-CountersMatch f h m)
  run-CountersMatch f (disarm ∷ ops) m =
      run-CountersMatch (stop on_flush f) ops (stop-CountersMatch f m)

  flush_now-TimerMatches :
      (f : BatchFlusher A) → TimerMatches f → TimerMatches (flush_now on_flush f)
  unfolding flush_now ship_batch running
  flush_now-TimerMatches f m = elim (Option-cases (on_flush f.flush_count f.batch)) [
    | inl e ↦ ground (arith, running-append [] f.calls (ship f.batch ∷ []))
    | inr (err, e) ↦ ground (arith, running-append [] f.calls (ship f.batch ∷ []))
  ]

  flush_now-bound : (f : BatchFlusher A) → length (flush_now on_flush f).batch ≡ 0
  unfolding flush_now ship_batch
  flush_now-bound f = elim (Option-cases (on_flush f.flush_count f.batch)) [
    | inl e ↦ ground arith
    | inr (err, e) ↦ ground arith
  ]

  max_batch-flush_now : (f : BatchFlusher A) → (flush_now on_flush f).max_batch ≡ f.max_batch
  unfolding flush_now ship_batch
  max_batch-flush_now f = elim (Option-cases (on_flush f.flush_count f.batch)) [
    | inl e ↦ ground arith
    | inr (err, e) ↦ ground arith
  ]

  flush_now-Safe :
      (limit : ℕ) (f : BatchFlusher A) (p : 0 < limit)
      → TimerMatches f
      → f.max_batch ≡ some limit
      → Safe limit (flush_now on_flush f)
  flush_now-Safe limit f p t e =
      (flush_now-TimerMatches f t, max_batch-flush_now f ∙ e, omega (arith, flush_now-bound f))

  add-Safe : (limit : ℕ) (f : BatchFlusher A) (x : A) → Safe limit f → Safe limit (add on_flush f x)
  unfolding add is_full
  add-Safe limit f x s = ground (
    arith,
    flush_now-Safe limit (record f { batch = f.batch ++ (x ∷ []) }),
    length-append f.batch (x ∷ []),
  )

  start-Safe : (limit : ℕ) (f : BatchFlusher A) (h : ℕ) → Safe limit f → Safe limit (start f h)
  unfolding start running
  start-Safe limit f h s = elim (Option-cases f.handle) [
    | inl e ↦ ground (arith, running-append [] f.calls (set_interval f.interval_ms h ∷ []))
    | inr (j, e) ↦ ground arith
  ]

  stop-Safe : (limit : ℕ) (f : BatchFlusher A) → Safe limit f → Safe limit (stop on_flush f)
  unfolding stop running
  stop-Safe limit f s = elim (Option-cases f.handle) [
    | inl e ↦ ground arith
    | inr (h, e) ↦ ground (
      arith,
      flush_now-Safe limit (record f { handle = none; calls = f.calls ++ (clear_interval h ∷ []) }),
      running-append [] f.calls (clear_interval h ∷ []),
    )
  ]

  -- Over any run of a flusher that is safe and has a `maxBatch`, fewer rows than `maxBatch` wait, and
  -- just the one interval runs whose handle the flusher holds, or none when it holds none.
  pub run-Safe :
      (limit : ℕ) (f : BatchFlusher A) (ops : List (Op A))
      → Safe limit f
      → Safe limit (run on_flush f ops)
  unfolding run step
  run-Safe limit f [] s = s
  run-Safe limit f (stage x ∷ ops) s = run-Safe limit (add on_flush f x) ops (add-Safe limit f x s)
  run-Safe limit f (tick ∷ ops) s =
      run-Safe limit (flush_now on_flush f) ops (flush_now-Safe limit f (omega arith) s.0 s.1)
  run-Safe limit f (arm h ∷ ops) s = run-Safe limit (start f h) ops (start-Safe limit f h s)
  run-Safe limit f (disarm ∷ ops) s = run-Safe limit (stop on_flush f) ops (stop-Safe limit f s)
