-- ===== src/Sink/FanOut.antt =====
-- How the sink of core/sink.ts builds the awaited set of a fan-out.
use bare_network_inspect.Base.{
  ℕ, ◌<◌, ◌≡◌, refl, sym, ap, ◌∙◌, none, some, List, [], ◌∷◌, length, JsString, same, map_get,
  set_add, map_get-set_self, length-map_set, arith, All,
}
use bare_network_inspect.Correlator.{Collector, PendingRequest, request, set_of}
use bare_network_inspect.Sink.{
  L2Event, request_start, present, await_peer, peers_of, method_of, start_request, route, emit,
}
use bare_network_inspect.Sink.Routing.{emit_all}

-- The event that announces one target of a request.
abbrev pub start_of : JsString → JsString → ℕ → JsString → L2Event
start_of corr_id method t p = record {
  event_type = request_start;
  t = t;
  peer_id = some p;
  corr_id = some corr_id;
  method = some method;
}

-- The events of a fan-out that announces its targets one by one.
unfoldable pub announcements : JsString → JsString → ℕ → List JsString → List L2Event
announcements corr_id method t [] = []
announcements corr_id method t (p ∷ ps) =
    start_of corr_id method t p ∷ announcements corr_id method t ps

-- An id that is not the empty string.
abbrev pub IsId : JsString → Type 0
IsId s = 0 < length s

present_id : (s : JsString) → IsId s → present (some s) ≡ some s
unfolding present
present_id s h = ground arith

emit_start :
    (c : Collector) (corr_id method : JsString) (t : ℕ) (q : JsString)
    → IsId corr_id
    → emit c (start_of corr_id method t q) ≡ start_request c corr_id (start_of corr_id method t q)
unfolding emit route
emit_start c corr_id method t q i = rw (present_id corr_id i, emit) refl

emit_known :
    (c : Collector) (corr_id method : JsString) (t : ℕ) (q : JsString) (p : PendingRequest)
    → IsId corr_id
    → IsId q
    → map_get same corr_id c.pending ≡ some p
    → emit c (start_of corr_id method t q) ≡ await_peer c corr_id p q
unfolding start_request
emit_known c corr_id method t q p i j e =
    emit_start c corr_id method t q i ∙ rw (e, present_id q j, start_request) refl

emit_fresh :
    (c : Collector) (corr_id method : JsString) (t : ℕ) (q : JsString)
    → IsId corr_id
    → IsId q
    → map_get same corr_id c.pending ≡ none
    → emit c (start_of corr_id method t q) ≡ request c corr_id method (q ∷ []) t
unfolding start_request method_of peers_of
emit_fresh c corr_id method t q i j e =
    emit_start c corr_id method t q i ∙ rw (e, present_id q j, start_request) refl

add_targets :
    (c : Collector) (corr_id method : JsString) (t : ℕ) (ps : List JsString) (p : PendingRequest)
    → IsId corr_id
    → All IsId ps
    → map_get same corr_id c.pending ≡ some p
    → map_get same corr_id (emit_all c (announcements corr_id method t ps)).pending
      ≡ some (record p { awaiting = set_of p.awaiting ps })
unfolding emit_all announcements set_of
add_targets c corr_id method t [] p i h e = e
add_targets c corr_id method t (q ∷ ps) p i h e =
    let p' : PendingRequest = record p { awaiting = set_add same q p.awaiting } in
    ap (λ z. map_get same corr_id (emit_all z (announcements corr_id method t ps)).pending)
      (emit_known c corr_id method t q p i h.0 e)
    ∙ add_targets (await_peer c corr_id p q) corr_id method t ps p' i h.1
        (unfold await_peer in map_get-set_self same corr_id p' c.pending)

request_found :
    (c : Collector) (corr_id method : JsString) (peers : List JsString) (t : ℕ)
    → map_get same corr_id c.pending ≡ none
    → length c.pending < c.max_pending
    → map_get same corr_id (request c corr_id method peers t).pending
      ≡ some (record { method = method; t = t; awaiting = set_of [] peers; responses = [] })
unfolding request
request_found c corr_id method peers t n room =
    let entry : PendingRequest = record {
      method = method;
      t = t;
      awaiting = set_of [] peers;
      responses = [];
    } in
    ground (
      arith,
      length-map_set same corr_id entry c.pending,
      map_get-set_self same corr_id entry c.pending,
    )

-- A fan-out that announces its targets one by one, under an id that is not in flight and with room for
-- one more request, leaves a pending request that awaits the same peers as one request to all of them.
pub announcements-request :
    (c : Collector) (corr_id method : JsString) (t : ℕ) (q : JsString) (ps : List JsString)
    → IsId corr_id
    → All IsId (q ∷ ps)
    → map_get same corr_id c.pending ≡ none
    → length c.pending < c.max_pending
    → map_get same corr_id (emit_all c (announcements corr_id method t (q ∷ ps))).pending
      ≡ map_get same corr_id (request c corr_id method (q ∷ ps) t).pending
unfolding emit_all announcements
announcements-request c corr_id method t q ps i h n room =
    ap (λ z. map_get same corr_id (emit_all z (announcements corr_id method t ps)).pending)
      (emit_fresh c corr_id method t q i h.0 n)
    ∙ add_targets (request c corr_id method (q ∷ []) t) corr_id method t ps
        (record { method = method; t = t; awaiting = set_of [] (q ∷ []); responses = [] }) i h.1
        (request_found c corr_id method (q ∷ []) t n room)
    ∙ unfold set_of set_add in sym (request_found c corr_id method (q ∷ ps) t n room)
