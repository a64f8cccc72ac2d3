-- ===== src/Flush.antt =====
-- packages/bare-probe/core/flush.ts: rows staged and shipped in batches.
-- `calls` records what the flusher asks of `onFlush` and of the timer, oldest first. The parameter
-- `on_flush` is the host's callback: its `n`-th call returns, or throws the message it gives.
-- The interval is a whole number; the timer's handle is the argument of `start`.
pub mod Run
pub mod Delivery
pub mod Counters
mod Tests
use bare_network_inspect.Base.{
  ℕ, ◌+◌, Bool, false, Option, none, some, List, [], ◌∷◌, ◌++◌, length, leb, ◌&&◌, ◌==◌,
  if◌then◌else◌, JsString,
}

pub data Call {ℓ} (A : Type ℓ) : Type ℓ where
  ship : List A → Call A
  set_interval : (ms handle : ℕ) → Call A
  clear_interval : (handle : ℕ) → Call A

pub record BatchFlusher {ℓ} (A : Type ℓ) : Type ℓ where
  pub interval_ms : ℕ
  pub max_batch : Option ℕ
  pub flush_count : ℕ
  pub dropped_batches : ℕ
  pub dropped_rows : ℕ
  pub last_error : Option JsString
  pub batch : List A
  pub handle : Option ℕ
  pub calls : List (Call A)

-- `length >= maxBatch`.
unfoldable pub is_full : Option ℕ → ℕ → Bool
is_full none n = false
is_full (some limit) n = leb limit n

module _ {ℓ} {A : Type ℓ} where
  -- The constructor; `max_batch` is `none` for Infinity, and the result for the RangeError.
  unfoldable pub new : ℕ → Option ℕ → Option (BatchFlusher A)
  new interval_ms max_batch =
      if leb 100 interval_ms && leb interval_ms 250
      then some (record {
        interval_ms = interval_ms;
        max_batch = max_batch;
        flush_count = 0;
        dropped_batches = 0;
        dropped_rows = 0;
        last_error = none;
        batch = [];
        handle = none;
        calls = [];
      })
      else none

  -- `h` is what `timer.setInterval` returns.
  unfoldable pub start : BatchFlusher A → ℕ → BatchFlusher A
  start f h = elim f.handle [
    | some _ ↦ f
    | none ↦ record f { handle = some h; calls = f.calls ++ (set_interval f.interval_ms h ∷ []) }
  ]

module _ {ℓ} {A : Type ℓ} (on_flush : ℕ → List A → Option JsString) where
  -- The part of `flushNow` behind its early return.
  unfoldable pub ship_batch : BatchFlusher A → BatchFlusher A
  ship_batch f =
      let out = f.batch in
      let f' : BatchFlusher A = record f {
        batch = [];
        flush_count = f.flush_count + 1;
        calls = f.calls ++ (ship out ∷ []);
      } in
      elim (on_flush f.flush_count out) [
        | none ↦ f'
        | some err ↦ record f' {
          dropped_batches = f.dropped_batches + 1;
          dropped_rows = f.dropped_rows + length out;
          last_error = some err;
        }
      ]

  unfoldable pub flush_now : BatchFlusher A → BatchFlusher A
  flush_now f = if length f.batch == 0 then f else ship_batch f

  -- The number that `flushNow` returns.
  unfoldable pub flush_now_result : BatchFlusher A → ℕ
  flush_now_result f =
      if length f.batch == 0
      then 0
      else elim (on_flush f.flush_count f.batch) [ none ↦ length f.batch | some err ↦ 0 ]

  unfoldable pub add : BatchFlusher A → A → BatchFlusher A
  add f item =
      let f' : BatchFlusher A = record f { batch = f.batch ++ (item ∷ []) } in
      if is_full f'.max_batch (length f'.batch) then flush_now f' else f'

  unfoldable pub add_all : BatchFlusher A → List A → BatchFlusher A
  add_all f [] = f
  add_all f (item ∷ items) = add_all (add f item) items

  unfoldable pub stop : BatchFlusher A → BatchFlusher A
  stop f = elim f.handle [
    | none ↦ f
    | some h ↦ flush_now (record f { handle = none; calls = f.calls ++ (clear_interval h ∷ []) })
  ]
