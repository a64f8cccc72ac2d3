-- ===== src/Correlator/Tests.antt =====
-- Runs of the collector of correlator.ts.
use bare_network_inspect.Base.{
  ◌≡◌, refl, none, List, [], ◌∷◌, arith, ℕ_discrete, JsString, same, ascii, map_get, Distinct,
  map_set, map_delete, set_has, set_add, set_delete,
}
use bare_network_inspect.RingBuffer
use bare_network_inspect.Correlator.{
  Collector, CollectorOptions, new, with_events, trim, mark_settled, set_of, request, answer,
  response, sweep_entry, sweep_entries, sweep,
}
use bare_network_inspect.Correlator.Trace.{
  Op, requested, responded, swept, step, run, opened_all, completed_all, emitted_all,
}
use bare_network_inspect.Correlator.Bounds.{IsBounded, new-IsBounded, run-IsBounded}
use bare_network_inspect.Correlator.Sweep.{survivors, pending-sweep, sweep-Swept, Swept}
use bare_network_inspect.Correlator.Account.{Balanced, run-Balanced}
use bare_network_inspect.Correlator.Awaited.{answered}
use bare_network_inspect.Correlator.Silent.{Names, respond_all, sweep-silent}

abbrev options : CollectorOptions
options = record { max_events = 4; max_pending = 2; timeout_ms = 100; max_settled = 2 }

abbrev empty : Collector
empty = record {
  events = record {
    capacity = 4;
    dropped = 0;
    buf = none ∷ none ∷ none ∷ none ∷ [];
    head = 0;
    count = 0;
  };
  pending = [];
  max_pending = 2;
  timeout_ms = 100;
  max_settled = 2;
  pending_dropped = 0;
  timed_out = 0;
  late_after_timeout = 0;
  settled = [];
}

abbrev a : JsString
a = ascii "a"

abbrev b : JsString
b = ascii "b"

abbrev get_method : JsString
get_method = ascii "get"

abbrev calls : List Op
calls =
    requested (ascii "1") get_method (a ∷ b ∷ []) 10
    ∷ responded (ascii "1") a 30
    ∷ swept 200
    ∷ responded (ascii "1") b 210
    ∷ []

late_response :
    ((run empty calls).timed_out ≡ 1)
    × ((run empty calls).late_after_timeout ≡ 1)
    × ((run empty calls).pending ≡ [])
unfolding run step request response answer sweep sweep_entries sweep_entry set_of RingBuffer.push
    mark_settled trim map_get map_set map_delete set_has set_add set_delete same ℕ_discrete
late_response = (refl, refl, refl)

empty-IsBounded : IsBounded empty 4 []
unfolding new with_events RingBuffer.new
empty-IsBounded = new-IsBounded options refl

run-IsBounded_example : IsBounded (run empty calls) 4 (emitted_all empty calls)
run-IsBounded_example = run-IsBounded calls empty 4 [] empty-IsBounded

run-Balanced_example :
    Balanced empty (run empty calls) (opened_all empty calls) (completed_all empty calls)
run-Balanced_example = run-Balanced calls empty tt

-- A collector with a request of 10 and one of 450.
abbrev two_pending : Collector
two_pending = record empty {
  pending =
      (ascii "1", record { method = get_method; t = 10; awaiting = a ∷ b ∷ []; responses = [] })
      ∷ (ascii "2", record { method = get_method; t = 450; awaiting = a ∷ []; responses = [] })
      ∷ [];
}

two_pending-Distinct : Distinct same two_pending.pending
unfolding map_get same ℕ_discrete
two_pending-Distinct = (refl, (refl, tt))

pending-sweep_example : (sweep two_pending 500).pending ≡ survivors 100 500 two_pending.pending
pending-sweep_example = pending-sweep two_pending 500 two_pending-Distinct

-- The first is swept, the second stays.
swept_first :
    survivors 100 500 two_pending.pending
    ≡ (ascii "2", record { method = get_method; t = 450; awaiting = a ∷ []; responses = [] }) ∷ []
unfolding survivors
swept_first = refl

sweep-Swept_example : Swept empty (sweep empty 500) [] 500
sweep-Swept_example = sweep-Swept empty 500

sweep-silent_example :
    Names
      (respond_all
        (request empty (ascii "1") get_method (a ∷ b ∷ []) 10)
        (ascii "1")
        ((a, 30) ∷ []))
      (sweep
        (respond_all
          (request empty (ascii "1") get_method (a ∷ b ∷ []) 10)
          (ascii "1")
          ((a, 30) ∷ []))
        200)
      (ascii "1")
      get_method
      200
      (a ∷ b ∷ [])
      ((a, 30) ∷ [])
unfolding set_has same ℕ_discrete answered
sweep-silent_example =
    sweep-silent empty 4 [] (ascii "1") get_method (a ∷ b ∷ []) 10 200 b ((a, 30) ∷ [])
      empty-IsBounded (omega arith) refl refl (omega arith)
