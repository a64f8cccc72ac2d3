-- ===== src/Correlator/Silent.antt =====
-- A peer that never answers is named in the timeout row (correlator.ts: request, response, sweep).
use bare_network_inspect.Base.{
  ℕ, suc, ◌+◌, ◌<◌, ◌≡◌, refl, ap, ◌∙◌, true, false, not, ◌&&◌, none, some, List, [], ◌∷◌, ◌++◌,
  map, length, JsString, same, map_get, map_set, set_has, set_delete, set_has-delete,
  map_get-set_self, map_get-delete, length-map_set_old, Option-cases, inl, inr, map-append,
  append_assoc, append-nil, length-map_set, arith,
}
use bare_network_inspect.Base.Int.{ℤ, sub_ℕ}
use bare_network_inspect.Correlator.{
  mark_settled, Row, timeout, PendingRequest, Collector, set_of, delete_oldest, request, answer,
  response, timeout_row, sweep,
}
use bare_network_inspect.RingBuffer
use bare_network_inspect.Correlator.Awaited.{
  silent, answered, strays, set_has-set_of, set_has-ne_nil, awaiting-after, length-silent-set_of,
}
use bare_network_inspect.Correlator.Sweep.{Entries, expired_hit, sweep-Swept}
use bare_network_inspect.Correlator.Bounds.{IsBounded}

-- Responses for one correlation id, in order: the peers and the times of arrival.
unfoldable pub respond_all : Collector → JsString → List (JsString × ℕ) → Collector
respond_all c corr_id [] = c
respond_all c corr_id ((peer, t) ∷ rs) = respond_all (response c corr_id peer t) corr_id rs

rtts : ℕ → List (JsString × ℕ) → List (JsString × ℤ)
rtts sent [] = []
rtts sent ((peer, t) ∷ rs) = (peer, sub_ℕ t sent) ∷ rtts sent rs

length-rtts : (sent : ℕ) (rs : List (JsString × ℕ)) → length (rtts sent rs) ≡ length rs
unfolding rtts
length-rtts sent [] = refl
length-rtts sent ((peer, t) ∷ rs) = ap suc (length-rtts sent rs)

after : PendingRequest → List (JsString × ℕ) → PendingRequest
after p rs = record p { awaiting = silent p.awaiting rs; responses = p.responses ++ rtts p.t rs }

-- A response that is not the last keeps the request, without that peer.
pending-response :
    (c : Collector) (corr_id peer : JsString) (t : ℕ) (p : PendingRequest)
    → map_get same corr_id c.pending ≡ some p
    → 0 < length (set_delete same peer p.awaiting)
    → map_get same corr_id (response c corr_id peer t).pending ≡ some (after p ((peer, t) ∷ []))
unfolding response answer after silent rtts
pending-response c corr_id peer t p e h =
    let p' : PendingRequest = record p {
      awaiting = set_delete same peer p.awaiting;
      responses = p.responses ++ ((peer, sub_ℕ t p.t) ∷ []);
    } in
    rw (e, response) (ground (arith, map_get-set_self same corr_id p' c.pending))

after-after :
    (p : PendingRequest) (r : JsString × ℕ) (rs : List (JsString × ℕ))
    → after (after p (r ∷ [])) rs ≡ after p (r ∷ rs)
unfolding after silent rtts
after-after p (peer, t) rs =
    ground (arith, append_assoc p.responses ((peer, sub_ℕ t p.t) ∷ []) (rtts p.t rs))

still :
    (peer : JsString) (t : ℕ) (rs : List (JsString × ℕ)) (p : PendingRequest) (q : JsString)
    → set_has same q p.awaiting ≡ true
    → answered q ((peer, t) ∷ rs) ≡ false
    → (set_has same q (set_delete same peer p.awaiting) ≡ true) × (answered q rs ≡ false)
unfolding answered
still peer t rs p q h a = ground (arith, set_has-delete same peer q p.awaiting)

pending-respond_all :
    (rs : List (JsString × ℕ)) (c : Collector) (corr_id q : JsString) (p : PendingRequest)
    → map_get same corr_id c.pending ≡ some p
    → set_has same q p.awaiting ≡ true
    → answered q rs ≡ false
    → map_get same corr_id (respond_all c corr_id rs).pending ≡ some (after p rs)
unfolding respond_all
pending-respond_all [] c corr_id q p e h a =
    unfold after silent rtts in ground (arith, append-nil p.responses)
pending-respond_all ((peer, t) ∷ rs) c corr_id q p e h a =
    let (waits, rest) = still peer t rs p q h a in
    pending-respond_all rs (response c corr_id peer t) corr_id q (after p ((peer, t) ∷ []))
      (pending-response c corr_id peer t p e (set_has-ne_nil q _ waits))
      (unfold after silent in waits) rest
    ∙ ap some (after-after p (peer, t) rs)

-- A new request is in the map, also when the oldest had to go for it.
map_get-delete_oldest :
    (k : JsString) (v : PendingRequest) (m : Entries)
    → map_get same k m ≡ none
    → 0 < length m
    → map_get same k (delete_oldest (map_set same k v m)) ≡ some v
unfolding delete_oldest map_get map_set
map_get-delete_oldest k v [] e h = absurd (omega arith)
map_get-delete_oldest k v ((j, q) ∷ m) e h =
    ground
      (arith, map_get-delete same j k ((j, q) ∷ map_set same k v m), map_get-set_self same k v m)

pub pending-request :
    (c : Collector) (limit : ℕ) (rows : List Row) (corr_id method : JsString)
    (peers : List JsString) (t : ℕ)
    → IsBounded c limit rows
    → 0 < c.max_pending
    → map_get same corr_id (request c corr_id method peers t).pending
      ≡ some (record { method = method; t = t; awaiting = set_of [] peers; responses = [] })
unfolding request
pending-request c limit rows corr_id method peers t b h =
    let entry : PendingRequest = record {
      method = method;
      t = t;
      awaiting = set_of [] peers;
      responses = [];
    } in
    elim (Option-cases (map_get same corr_id c.pending)) [
      | inl e ↦ ground (
        arith,
        b.pending,
        map_get-delete_oldest corr_id entry c.pending e,
        map_get-set_self same corr_id entry c.pending,
        length-map_set same corr_id entry c.pending,
      )
      | inr (p, e) ↦ ground (
        arith,
        b.pending,
        length-map_set_old same corr_id entry p c.pending e,
        map_get-set_self same corr_id entry c.pending,
      )
    ]

timeout_ms-response :
    (c : Collector) (corr_id peer : JsString) (t : ℕ)
    → (response c corr_id peer t).timeout_ms ≡ c.timeout_ms
unfolding response answer mark_settled
timeout_ms-response c corr_id peer t = ground arith

timeout_ms-respond_all :
    (rs : List (JsString × ℕ)) (c : Collector) (corr_id : JsString)
    → (respond_all c corr_id rs).timeout_ms ≡ c.timeout_ms
unfolding respond_all
timeout_ms-respond_all [] c corr_id = refl
timeout_ms-respond_all ((peer, t) ∷ rs) c corr_id =
    timeout_ms-respond_all rs (response c corr_id peer t) corr_id
    ∙ timeout_ms-response c corr_id peer t

-- From `c` to `c'` rows were pushed onto the ring, one of them a timeout row. It names exactly the
-- peers that did not answer, and counts those that did and the responses of others.
pub record Names (c c' : Collector) (corr_id method : JsString) (now : ℕ) (peers : List JsString)
    (rs : List (JsString × ℕ)) : Type 0 where
  pub front : List Row
  pub back : List Row
  pub unanswered : List JsString
  pub partial : ℕ
  pub row :
      c'.events
      ≡ RingBuffer.push_all c.events
          (front ++ (timeout corr_id method now unanswered partial ∷ back))
  pub exactly :
      (q : JsString) → set_has same q unanswered ≡ (set_has same q peers && not (answered q rs))
  pub counted : length unanswered + partial ≡ length (set_of [] peers) + strays (set_of [] peers) rs

timeout_emitted :
    (c : Collector) (now : ℕ) (k : JsString) (p : PendingRequest)
    → map_get same k c.pending ≡ some p
    → p.t + c.timeout_ms < now
    → (front back : List Row) × ((sweep c now).events
        ≡ RingBuffer.push_all c.events (front ++ (timeout_row now (k, p) ∷ back)))
timeout_emitted c now k p e h =
    let (front, back, x) = expired_hit c.timeout_ms now k p c.pending e (ground arith) in
    (
      map (timeout_row now) front,
      map (timeout_row now) back,
      (sweep-Swept c now).events
          ∙ ap (λ es. RingBuffer.push_all c.events (map (timeout_row now) es)) x
          ∙ ap (RingBuffer.push_all c.events) (map-append (timeout_row now) front ((k, p) ∷ back)),
    )

row-after :
    (now : ℕ) (corr_id method : JsString) (sent : ℕ) (peers : List JsString)
    (rs : List (JsString × ℕ))
    → timeout_row now (
      corr_id,
      after (record { method = method; t = sent; awaiting = set_of [] peers; responses = [] }) rs,
    )
      ≡ timeout corr_id method now (silent (set_of [] peers) rs) (length rs)
unfolding after
row-after now corr_id method sent peers rs =
    ap (timeout corr_id method now (silent (set_of [] peers) rs)) (length-rtts sent rs)

-- Let a collector that is within its bounds, and that may hold a request, be given one. If a peer
-- `q` of its fan-out gives no answer, then a sweep after the deadline pushes a timeout row for that
-- request onto the ring of events. The row names exactly the peers of the fan-out that gave none.
-- The number of those that it names and its `partial` add up to the number of different peers of the
-- fan-out, and one more for each response that came from a peer outside the fan-out or from one that
-- had answered before.
pub sweep-silent :
    (c : Collector) (limit : ℕ) (rows : List Row) (corr_id method : JsString)
    (peers : List JsString) (sent now : ℕ) (q : JsString) (rs : List (JsString × ℕ))
    → IsBounded c limit rows
    → 0 < c.max_pending
    → set_has same q peers ≡ true
    → answered q rs ≡ false
    → sent + c.timeout_ms < now
    → Names
        (respond_all (request c corr_id method peers sent) corr_id rs)
        (sweep (respond_all (request c corr_id method peers sent) corr_id rs) now)
        corr_id
        method
        now
        peers
        rs
sweep-silent c limit rows corr_id method peers sent now q rs b h w a late =
    let c' : Collector = request c corr_id method peers sent in
    let p : PendingRequest = record {
      method = method;
      t = sent;
      awaiting = set_of [] peers;
      responses = [];
    } in
    let found : map_get same corr_id (respond_all c' corr_id rs).pending ≡ some (after p rs) =
      pending-respond_all rs c' corr_id q p
        (pending-request c limit rows corr_id method peers sent b h)
        (unfold set_has in set_has-set_of q [] peers ∙ w) a in
    let time : (respond_all c' corr_id rs).timeout_ms ≡ c.timeout_ms =
      timeout_ms-respond_all rs c' corr_id ∙ (unfold request in refl) in
    let (front, back, e) =
      timeout_emitted (respond_all c' corr_id rs) now corr_id (after p rs) found
        (unfold after in omega (arith, time)) in
    record {
      front = front;
      back = back;
      unanswered = silent (set_of [] peers) rs;
      row =
          e
          ∙ ap (λ r. RingBuffer.push_all (respond_all c' corr_id rs).events (front ++ (r ∷ back)))
              (row-after now corr_id method sent peers rs);
      exactly = λ x. awaiting-after x peers rs;
      partial = length rs;
      counted = length-silent-set_of peers rs;
    }
