-- ===== src/Flush/Delivery.antt =====
-- Which rows the flusher of flush.ts hands on, over any run.
use bare_network_inspect.Base.{
  ℕ, ◌≡◌, refl, sym, ap, ◌∙◌, inl, inr, Option, none, List, [], ◌∷◌, ◌++◌, append-nil, append_assoc,
  arith, Option-cases, JsString,
}
use bare_network_inspect.Flush.{
  BatchFlusher, Call, ship, set_interval, clear_interval, ship_batch, flush_now, add, start, stop,
}
use bare_network_inspect.Flush.Run.{Op, stage, tick, arm, disarm, staged, ships, concat, step, run}

module _ {ℓ} {A : Type ℓ} where
  pub ships-append : (cs ds : List (Call A)) → ships (cs ++ ds) ≡ ships cs ++ ships ds
  unfolding ships
  ships-append [] ds = refl
  ships-append (ship xs ∷ cs) ds = ap (◌∷◌ xs) (ships-append cs ds)
  ships-append (set_interval ms h ∷ cs) ds = ships-append cs ds
  ships-append (clear_interval h ∷ cs) ds = ships-append cs ds

  concat-append : (xss yss : List (List A)) → concat (xss ++ yss) ≡ concat xss ++ concat yss
  unfolding concat
  concat-append [] yss = refl
  concat-append (xs ∷ xss) yss =
      ap (◌++◌ xs) (concat-append xss yss) ∙ sym (append_assoc xs (concat xss) (concat yss))

  -- The rows shipped and those that wait.
  abbrev pub seen : BatchFlusher A → List A
  seen f = concat (ships f.calls) ++ f.batch

  seen-call :
      (cs : List (Call A)) (xs ys : List A)
      → concat (ships (cs ++ (ship xs ∷ []))) ++ ys ≡ (concat (ships cs) ++ xs) ++ ys
  unfolding ships concat
  seen-call cs xs ys =
      ap (λ z. concat z ++ ys) (ships-append cs (ship xs ∷ []))
      ∙ ap (λ z. z ++ ys) (concat-append (ships cs) (xs ∷ []))
      ∙ ap (λ z. (concat (ships cs) ++ z) ++ ys) (append-nil xs)

module _ {ℓ} {A : Type ℓ} (on_flush : ℕ → List A → Option JsString) where
  flush_now-seen : (f : BatchFlusher A) → seen (flush_now on_flush f) ≡ seen f
  unfolding flush_now ship_batch
  flush_now-seen f = elim (Option-cases (on_flush f.flush_count f.batch)) [
    | inl e ↦
        ground (arith, seen-call f.calls f.batch [], append-nil (concat (ships f.calls) ++ f.batch))
    | inr (err, e) ↦
        ground (arith, seen-call f.calls f.batch [], append-nil (concat (ships f.calls) ++ f.batch))
  ]

  add-seen : (f : BatchFlusher A) (x : A) → seen (add on_flush f x) ≡ seen f ++ (x ∷ [])
  unfolding add
  add-seen f x = ground (
    arith,
    flush_now-seen (record f { batch = f.batch ++ (x ∷ []) }),
    append_assoc (concat (ships f.calls)) f.batch (x ∷ []),
  )

  start-seen : (f : BatchFlusher A) (h : ℕ) → seen (start f h) ≡ seen f
  unfolding start ships
  start-seen f h =
      ground (
        arith,
        ships-append f.calls (set_interval f.interval_ms h ∷ []),
        append-nil (ships f.calls),
      )

  stop-seen : (f : BatchFlusher A) → seen (stop on_flush f) ≡ seen f
  unfolding stop ships
  stop-seen f = elim (Option-cases f.handle) [
    | inl e ↦ ground arith
    | inr (h, e) ↦ ground (
      arith,
      flush_now-seen (record f { handle = none; calls = f.calls ++ (clear_interval h ∷ []) }),
      ships-append f.calls (clear_interval h ∷ []),
      append-nil (ships f.calls),
    )
  ]

  -- Whatever a run stages, flushes, starts and stops, and however `on_flush` fails, the batches
  -- handed to `on_flush` in their order, followed by the rows that still wait, are the rows from
  -- before the run followed by the rows it added: none is lost before `on_flush`, repeated or
  -- reordered.
  pub run-seen :
      (f : BatchFlusher A) (ops : List (Op A)) → seen (run on_flush f ops) ≡ seen f ++ staged ops
  unfolding run step staged
  run-seen f [] = sym (append-nil (seen f))
  run-seen f (stage x ∷ ops) =
      run-seen (add on_flush f x) ops
      ∙ ap (λ z. z ++ staged ops) (add-seen f x)
      ∙ append_assoc (seen f) (x ∷ []) (staged ops)
  run-seen f (tick ∷ ops) =
      run-seen (flush_now on_flush f) ops ∙ ap (λ z. z ++ staged ops) (flush_now-seen f)
  run-seen f (arm h ∷ ops) = run-seen (start f h) ops ∙ ap (λ z. z ++ staged ops) (start-seen f h)
  run-seen f (disarm ∷ ops) =
      run-seen (stop on_flush f) ops ∙ ap (λ z. z ++ staged ops) (stop-seen f)
