-- ===== src/Flush/Tests.antt =====
-- Runs of the flusher of flush.ts.
use bare_network_inspect.Base.{
  ℕ, zero, suc, ◌≡◌, refl, Option, none, some, List, [], ◌∷◌, ◌++◌, arith, JsString, ascii,
}
use bare_network_inspect.Flush.{
  BatchFlusher, ship, set_interval, clear_interval, is_full, ship_batch, flush_now,
  flush_now_result, add, add_all, start, stop, new,
}
use bare_network_inspect.Flush.Run.{
  Op, stage, arm, disarm, staged, ships, running, step, run, lost_batches, lost_rows,
}
use bare_network_inspect.Flush.Delivery.{seen, run-seen}
use bare_network_inspect.Flush.Counters.{CountersMatch, Safe, run-CountersMatch, run-Safe}

-- A callback whose first call throws.
abbrev first_fails : ℕ → List ℕ → Option JsString
first_fails zero xs = some (ascii "down")
first_fails (suc n) xs = none

abbrev fresh : BatchFlusher ℕ
fresh = record {
  interval_ms = 100;
  max_batch = some 2;
  flush_count = 0;
  dropped_batches = 0;
  dropped_rows = 0;
  last_error = none;
  batch = [];
  handle = none;
  calls = [];
}

new-fresh : new 100 (some 2) ≡ some fresh
unfolding new
new-fresh = refl

new_refused : (new {A = ℕ} 99 none ≡ none) × (new {A = ℕ} 251 none ≡ none)
unfolding new
new_refused = (refl, refl)

abbrev work : List (Op ℕ)
work = arm 7 ∷ stage 1 ∷ stage 2 ∷ arm 8 ∷ stage 3 ∷ disarm ∷ []

run-work :
    (run first_fails fresh work).calls
    ≡ set_interval 100 7 ∷ ship (1 ∷ 2 ∷ []) ∷ clear_interval 7 ∷ ship (3 ∷ []) ∷ []
unfolding run step add start stop flush_now ship_batch is_full
run-work = refl

result_work : flush_now_result first_fails (add first_fails fresh 1) ≡ 0
unfolding flush_now_result add flush_now ship_batch is_full
result_work = refl

add_all_work : (add_all first_fails fresh (1 ∷ 2 ∷ 3 ∷ [])).batch ≡ 3 ∷ []
unfolding add_all add flush_now ship_batch is_full
add_all_work = refl

run-seen_example : seen (run first_fails fresh work) ≡ seen fresh ++ staged work
run-seen_example = run-seen first_fails fresh work

run-CountersMatch_example : CountersMatch first_fails (run first_fails fresh work)
unfolding lost_batches lost_rows ships
run-CountersMatch_example = run-CountersMatch first_fails fresh work (refl, refl, refl)

run-Safe_example : Safe 2 (run first_fails fresh work)
unfolding running
run-Safe_example = run-Safe first_fails 2 fresh work (refl, refl, omega arith)
