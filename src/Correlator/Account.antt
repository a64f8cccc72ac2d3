-- ===== src/Correlator/Account.antt =====
-- Every request that the collector of correlator.ts takes is accounted for.
use bare_network_inspect.Base.{
  ℕ, ◌+◌, ◌≡◌, refl, ap, some, List, [], ◌∷◌, ◌++◌, length, JsString, same, map_get, map_set,
  set_delete, Distinct, Distinct-set, Distinct-delete, length-map_set_old, length-map_set_new,
  length-map_delete_hit, Option-cases, inl, inr, map_get-cons_self, map_get-set_self, ◌-◌, arith,
}
use bare_network_inspect.Base.Int.{sub_ℕ}
use bare_network_inspect.Correlator.{
  PendingRequest, Collector, set_of, mark_settled, delete_oldest, request, answer, response, sweep,
}
use bare_network_inspect.Correlator.Sweep.{
  Entries, sweep-Swept, pending-sweep, length-survivors, Distinct-survivors,
}
use bare_network_inspect.Correlator.Trace.{
  Op, requested, responded, swept, step, run, opened, completed, opened_all, completed_all,
}

-- One call keeps the balance of the counters, and the keys distinct.
pub record Balanced (c c' : Collector) (opened completed : ℕ) : Type 0 where
  pub distinct : Distinct same c'.pending
  pub balance :
      length c'.pending + c'.timed_out + c'.pending_dropped + completed
      ≡ length c.pending + c.timed_out + c.pending_dropped + opened

delete_oldest_lem :
    (m : Entries)
    → Distinct same m
    → Distinct same (delete_oldest m) × (length (delete_oldest m) ≡ length m - 1)
unfolding delete_oldest
delete_oldest_lem [] d = (d, refl)
delete_oldest_lem ((k, p) ∷ m) d = (
  Distinct-delete same k ((k, p) ∷ m) d,
  omega (arith, length-map_delete_hit same k p ((k, p) ∷ m) d (map_get-cons_self same k p m)),
)

request-Balanced :
    (c : Collector) (corr_id method : JsString) (peers : List JsString) (t : ℕ)
    → Distinct same c.pending
    → Balanced c (request c corr_id method peers t) (opened c (requested corr_id method peers t)) 0
unfolding request opened
request-Balanced c corr_id method peers t d =
    let entry : PendingRequest = record {
      method = method;
      t = t;
      awaiting = set_of [] peers;
      responses = [];
    } in
    let kept = Distinct-set same corr_id entry c.pending d in
    let evicted = delete_oldest_lem (map_set same corr_id entry c.pending) kept in
    elim (Option-cases (map_get same corr_id c.pending)) [
      | inl e ↦ ground (arith, kept, evicted, length-map_set_new same corr_id entry c.pending e)
      | inr (p, e) ↦
          ground (arith, kept, evicted, length-map_set_old same corr_id entry p c.pending e)
    ]

answer-Balanced :
    (c : Collector) (corr_id : JsString) (p : PendingRequest) (peer : JsString) (t : ℕ)
    → map_get same corr_id c.pending ≡ some p
    → Distinct same c.pending
    → Balanced c (answer c corr_id p peer t) 0 (completed c (responded corr_id peer t))
unfolding answer mark_settled completed
answer-Balanced c corr_id p peer t e d =
    let p' : PendingRequest = record p {
      awaiting = set_delete same peer p.awaiting;
      responses = p.responses ++ ((peer, sub_ℕ t p.t) ∷ []);
    } in
    let m : Entries = map_set same corr_id p' c.pending in
    let d' = Distinct-set same corr_id p' c.pending d in
    rw (e, completed)
      (ground (
        arith,
        d',
        length-map_set_old same corr_id p' p c.pending e,
        map_get-set_self same corr_id p' c.pending,
        length-map_delete_hit same corr_id p' m d',
        Distinct-delete same corr_id m d',
      ))

response-Balanced :
    (c : Collector) (corr_id peer : JsString) (t : ℕ)
    → Distinct same c.pending
    → Balanced c (response c corr_id peer t) 0 (completed c (responded corr_id peer t))
unfolding response completed
response-Balanced c corr_id peer t d = elim (Option-cases (map_get same corr_id c.pending)) [
  | inl e ↦ rw (e, response, completed) (ground arith)
  | inr (p, e) ↦ rw (e, response) (answer-Balanced c corr_id p peer t e d)
]

sweep-Balanced : (c : Collector) (now : ℕ) → Distinct same c.pending → Balanced c (sweep c now) 0 0
sweep-Balanced c now d =
    let s = sweep-Swept c now in
    let kept = pending-sweep c now d in
    record {
      distinct = rw kept (Distinct-survivors c.timeout_ms now c.pending d);
      balance = omega (
        arith,
        ap {B = ℕ} length kept,
        s.counted,
        s.pending_dropped,
        length-survivors c.timeout_ms now c.pending,
      );
    }

pub step-Balanced :
    (c : Collector) (o : Op)
    → Distinct same c.pending
    → Balanced c (step c o) (opened c o) (completed c o)
unfolding step
step-Balanced c (requested corr_id method peers t) d =
    unfold completed in request-Balanced c corr_id method peers t d
step-Balanced c (responded corr_id peer t) d = unfold opened in response-Balanced c corr_id peer t d
step-Balanced c (swept now) d = unfold opened completed in sweep-Balanced c now d

-- Over every sequence of calls, each request that was opened is still pending, or it was timed
-- out, counted as dropped, or completed: none goes missing.
pub run-Balanced :
    (os : List Op) (c : Collector)
    → Distinct same c.pending
    → Balanced c (run c os) (opened_all c os) (completed_all c os)
unfolding run opened_all completed_all
run-Balanced [] c d = ground arith
run-Balanced (o ∷ os) c d =
    let s = step-Balanced c o d in
    let r = run-Balanced os (step c o) s.distinct in
    record { distinct = r.distinct; balance = omega (arith, s.balance, r.balance) }
