-- ===== src/Flush/Run.antt =====
-- Runs of the flusher of flush.ts, and what can be read off its calls.
use bare_network_inspect.Base.{
  ℕ, ◌+◌, Option, none, some, List, [], ◌∷◌, ◌++◌, length, JsString, ℕ_discrete, ite,
}
use bare_network_inspect.Flush.{
  BatchFlusher, Call, ship, set_interval, clear_interval, flush_now, add, start, stop,
}

-- The calls of a user of the flusher; `tick` is the timer's, or a manual one.
pub data Op {ℓ} (A : Type ℓ) : Type ℓ where
  stage : A → Op A
  tick : Op A
  arm : ℕ → Op A
  disarm : Op A

module _ {ℓ} {A : Type ℓ} where
  -- The rows that a run adds.
  unfoldable pub staged : List (Op A) → List A
  staged [] = []
  staged (stage x ∷ ops) = x ∷ staged ops
  staged (tick ∷ ops) = staged ops
  staged (arm h ∷ ops) = staged ops
  staged (disarm ∷ ops) = staged ops

  -- The batches handed to `onFlush`, oldest first.
  unfoldable pub ships : List (Call A) → List (List A)
  ships [] = []
  ships (ship xs ∷ cs) = xs ∷ ships cs
  ships (set_interval ms h ∷ cs) = ships cs
  ships (clear_interval h ∷ cs) = ships cs

  unfoldable pub concat : List (List A) → List A
  concat [] = []
  concat (xs ∷ xss) = xs ++ concat xss

  -- The handles of the intervals that run after `calls`, when those in `on` ran before.
  unfoldable pub running : List ℕ → List (Call A) → List ℕ
  running on [] = on
  running on (ship xs ∷ cs) = running on cs
  running on (set_interval ms h ∷ cs) = running (h ∷ on) cs
  running [] (clear_interval h ∷ cs) = running [] cs
  running (j ∷ on) (clear_interval h ∷ cs) = running (ite (ℕ_discrete j h) on (j ∷ on)) cs

module _ {ℓ} {A : Type ℓ} (on_flush : ℕ → List A → Option JsString) where
  unfoldable pub step : BatchFlusher A → Op A → BatchFlusher A
  step f (stage x) = add on_flush f x
  step f tick = flush_now on_flush f
  step f (arm h) = start f h
  step f disarm = stop on_flush f

  unfoldable pub run : BatchFlusher A → List (Op A) → BatchFlusher A
  run f [] = f
  run f (op ∷ ops) = run (step f op) ops

  -- The batches and rows that `on_flush` refuses, where its calls have the numbers from `n` on.
  unfoldable pub lost_batches : ℕ → List (List A) → ℕ
  lost_batches n [] = 0
  lost_batches n (xs ∷ xss) =
      lost_batches (n + 1) xss + elim (on_flush n xs) [ none ↦ 0 | some err ↦ 1 ]

  unfoldable pub lost_rows : ℕ → List (List A) → ℕ
  lost_rows n [] = 0
  lost_rows n (xs ∷ xss) =
      lost_rows (n + 1) xss + elim (on_flush n xs) [ none ↦ 0 | some err ↦ length xs ]
