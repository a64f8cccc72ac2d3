-- ===== src/Correlator/Bounds.antt =====
-- The memory bounds of the collector of correlator.ts, over every sequence of calls.
use bare_network_inspect.Base.Int.{sub_ℕ}
use bare_network_inspect.Base.{
  Option-cases, ap, append-nil, append_assoc, ℕ, ◌+◌, ◌≤◌, ◌≡◌, refl, Option, none, some, List, [],
  ◌∷◌, ◌++◌, length, inl, inr, JsString, same, map_get, map_set, set_add, set_delete,
  length-map_set, length-map_delete, length-map_delete_head, Distinct, Distinct-set,
  Distinct-delete, length-map_set_old, arith, map,
}
use bare_network_inspect.RingBuffer.{RingBuffer}
use bare_network_inspect.RingBuffer
use bare_network_inspect.RingBuffer.Refine.{Holds, push_all-Holds, push-Holds', new-Holds}
use bare_network_inspect.Correlator.{
  Row, req, res, timeout_row, set_of, PendingRequest, Collector, CollectorOptions, new, trim,
  mark_settled, delete_oldest, request, answer, response, sweep_entry, sweep_entries, sweep,
  with_events,
}
use bare_network_inspect.Correlator.Trace.{
  Op, requested, responded, swept, step, run, emitted, emitted_all,
}
use bare_network_inspect.Correlator.Sweep.{
  expired, Distinct-survivors, Entries, sweep-Swept, pending-sweep, length-survivors,
}

-- All that a collector keeps stays within its options; `rows` are the rows emitted so far.
pub record IsBounded (c : Collector) (max_events : ℕ) (rows : List Row) : Type 0 where
  pub events : Holds c.events max_events 0 rows
  pub pending : length c.pending ≤ c.max_pending
  pub distinct : Distinct same c.pending
  pub settled : length c.settled ≤ c.max_settled

length-trim : (bound : ℕ) (s : List JsString) → length (trim bound s) ≤ bound
unfolding trim
length-trim bound [] = omega arith
length-trim bound (x ∷ s) = ground (arith, length-trim bound s)

length-delete_oldest :
    (m : List (JsString × PendingRequest)) (n : ℕ) → length m ≤ n + 1 → length (delete_oldest m) ≤ n
unfolding delete_oldest
length-delete_oldest [] n h = omega arith
length-delete_oldest ((k, p) ∷ m) n h = omega (arith, length-map_delete_head same k p m)

pub new-IsBounded :
    (o : CollectorOptions) {c : Collector} → new o ≡ some c → IsBounded c o.max_events []
unfolding new
new-IsBounded o {c} e = go (RingBuffer.new o.max_events) refl e
  where
    go :
        (r : Option (RingBuffer Row))
        → RingBuffer.new o.max_events ≡ r
        → elim r [ none ↦ none | some events ↦ some (with_events o events) ] ≡ some c
        → IsBounded c o.max_events []
    go none p q = cc
    go (some events) p q = ground (arith, new-Holds o.max_events p)

Distinct-delete_oldest :
    (m : List (JsString × PendingRequest)) → Distinct same m → Distinct same (delete_oldest m)
unfolding delete_oldest
Distinct-delete_oldest [] d = d
Distinct-delete_oldest ((k, p) ∷ m) d = Distinct-delete same k ((k, p) ∷ m) d

request-IsBounded :
    (c : Collector) (limit : ℕ) (rows : List Row) (corr_id method : JsString)
    (peers : List JsString) (t : ℕ)
    → IsBounded c limit rows
    → IsBounded
        (request c corr_id method peers t)
        limit
        (rows ++ emitted c (requested corr_id method peers t))
unfolding request emitted
request-IsBounded c limit rows corr_id method peers t b =
    let entry : PendingRequest = record {
      method = method;
      t = t;
      awaiting = set_of [] peers;
      responses = [];
    } in
    let m : Entries = map_set same corr_id entry c.pending in
    ground (
      arith,
      push-Holds' (req corr_id method t (length peers)) b.events,
      length-map_set same corr_id entry c.pending,
      length-delete_oldest m c.max_pending,
      Distinct-delete_oldest m,
      Distinct-set same corr_id entry c.pending,
    )

answer-IsBounded :
    (c : Collector) (limit : ℕ) (rows : List Row) (corr_id : JsString) (p : PendingRequest)
    (peer : JsString) (t : ℕ)
    → map_get same corr_id c.pending ≡ some p
    → IsBounded c limit rows
    → IsBounded (answer c corr_id p peer t) limit (rows ++ (res corr_id peer t (sub_ℕ t p.t) ∷ []))
unfolding answer mark_settled
answer-IsBounded c limit rows corr_id p peer t e b =
    let p' : PendingRequest = record p {
      awaiting = set_delete same peer p.awaiting;
      responses = p.responses ++ ((peer, sub_ℕ t p.t) ∷ []);
    } in
    let m : Entries = map_set same corr_id p' c.pending in
    ground (
      arith,
      push-Holds' (res corr_id peer t (sub_ℕ t p.t)) b.events,
      length-map_set_old same corr_id p' p c.pending e,
      length-map_delete same corr_id m,
      length-trim c.max_settled (set_add same corr_id c.settled),
      Distinct-set same corr_id p' c.pending,
      Distinct-delete same corr_id m,
    )

settled-sweep_entries :
    (now : ℕ) (es : Entries) (c : Collector)
    → length c.settled ≤ c.max_settled
    → length (sweep_entries now c es).settled ≤ c.max_settled
unfolding sweep_entries sweep_entry mark_settled
settled-sweep_entries now [] c h = h
settled-sweep_entries now ((k, p) ∷ es) c h = ground (
  arith,
  settled-sweep_entries now es (sweep_entry now c (k, p)),
  length-trim c.max_settled (set_add same k c.settled),
)

sweep-IsBounded :
    (c : Collector) (limit : ℕ) (rows : List Row) (now : ℕ)
    → IsBounded c limit rows
    → IsBounded (sweep c now) limit (rows ++ emitted c (swept now))
unfolding emitted
sweep-IsBounded c limit rows now b =
    let s = sweep-Swept c now in
    let late : Entries = expired c.timeout_ms now c.pending in
    record {
      events = rw s.events (push_all-Holds (map (timeout_row now) late) b.events);
      pending = omega (
        arith,
        ap {B = ℕ} length (pending-sweep c now b.distinct),
        s.max_pending,
        b.pending,
        length-survivors c.timeout_ms now c.pending,
      );
      distinct =
          rw (pending-sweep c now b.distinct)
            (Distinct-survivors c.timeout_ms now c.pending b.distinct);
      settled = rw s.max_settled (unfold sweep in settled-sweep_entries now c.pending c b.settled);
    }

response-IsBounded :
    (c : Collector) (limit : ℕ) (rows : List Row) (corr_id peer : JsString) (t : ℕ)
    → IsBounded c limit rows
    → IsBounded (response c corr_id peer t) limit (rows ++ emitted c (responded corr_id peer t))
unfolding response emitted
response-IsBounded c limit rows corr_id peer t b =
    elim (Option-cases (map_get same corr_id c.pending)) [
      | inl e ↦ rw (e, response, emitted) (rw append-nil (ground arith))
      | inr (p, e) ↦ rw (e, response, emitted) (answer-IsBounded c limit rows corr_id p peer t e b)
    ]

pub step-IsBounded :
    (c : Collector) (limit : ℕ) (rows : List Row) (o : Op)
    → IsBounded c limit rows
    → IsBounded (step c o) limit (rows ++ emitted c o)
unfolding step
step-IsBounded c limit rows (requested corr_id method peers t) b =
    request-IsBounded c limit rows corr_id method peers t b
step-IsBounded c limit rows (responded corr_id peer t) b =
    response-IsBounded c limit rows corr_id peer t b
step-IsBounded c limit rows (swept now) b = sweep-IsBounded c limit rows now b

-- From a collector within its bounds, every sequence of calls stays within them, and the ring of
-- rows goes on holding the last `limit` rows of the history, each emitted row in its place.
pub run-IsBounded :
    (os : List Op) (c : Collector) (limit : ℕ) (rows : List Row)
    → IsBounded c limit rows
    → IsBounded (run c os) limit (rows ++ emitted_all c os)
unfolding run emitted_all
run-IsBounded [] c limit rows b = rw append-nil b
run-IsBounded (o ∷ os) c limit rows b =
    rw (append_assoc rows (emitted c o) (emitted_all (step c o) os)) at
      (run-IsBounded os (step c o) limit (rows ++ emitted c o) (step-IsBounded c limit rows o b))
