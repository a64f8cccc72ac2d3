-- ===== src/Sink/Routing.antt =====
-- What the sink of core/sink.ts makes of sequences of events.
use bare_network_inspect.Base.{
  ℕ, ◌≡◌, inl, inr, some, List, [], ◌∷◌, ◌++◌, JsString, same, map_get, set_add, length-map_set_old,
  Distinct-set, arith, Option-cases,
}
use bare_network_inspect.Correlator.{Row, Collector, PendingRequest, request, response}
use bare_network_inspect.Correlator.Trace.{requested, responded, run, emitted_all, step}
use bare_network_inspect.Correlator.Bounds.{IsBounded, run-IsBounded}
use bare_network_inspect.Sink.{
  L2Event, L2EventType, request_start, message_out, request_end, message_in, send_error,
  backpressure_clear, conn_state, conn_stats, ws_open_attempt, ws_open, ws_close, ws_error,
  ws_message_out, ws_message_in, present, await_peer, peers_of, method_of, start_request,
  end_request, route, emit,
}

unfoldable pub emit_all : Collector → List L2Event → Collector
emit_all c [] = c
emit_all c (e ∷ es) = emit_all (emit c e) es

-- The collector holds no more than its options allow.
abbrev pub Fits : ℕ → Collector → Type 0
Fits limit c = (rows : List Row) × IsBounded c limit rows

request-Fits :
    (limit : ℕ) (c : Collector) (corr_id method : JsString) (peers : List JsString) (t : ℕ)
    → Fits limit c
    → Fits limit (request c corr_id method peers t)
unfolding run step
request-Fits limit c corr_id method peers t (rows, b) = (
  rows ++ emitted_all c (requested corr_id method peers t ∷ []),
  run-IsBounded (requested corr_id method peers t ∷ []) c limit rows b,
)

response-Fits :
    (limit : ℕ) (c : Collector) (corr_id peer : JsString) (t : ℕ)
    → Fits limit c
    → Fits limit (response c corr_id peer t)
unfolding run step
response-Fits limit c corr_id peer t (rows, b) = (
  rows ++ emitted_all c (responded corr_id peer t ∷ []),
  run-IsBounded (responded corr_id peer t ∷ []) c limit rows b,
)

await_peer-Fits :
    (limit : ℕ) (c : Collector) (corr_id peer : JsString) (p : PendingRequest)
    → map_get same corr_id c.pending ≡ some p
    → Fits limit c
    → Fits limit (await_peer c corr_id p peer)
unfolding await_peer
await_peer-Fits limit c corr_id peer p e (rows, b) =
    let p' : PendingRequest = record p { awaiting = set_add same peer p.awaiting } in
    (
      rows,
      record {
        events = b.events;
        pending = omega (arith, b.pending, length-map_set_old same corr_id p' p c.pending e);
        distinct = Distinct-set same corr_id p' c.pending b.distinct;
        settled = b.settled;
      },
    )

start_request-Fits :
    (limit : ℕ) (c : Collector) (corr_id : JsString) (e : L2Event)
    → Fits limit c
    → Fits limit (start_request c corr_id e)
unfolding start_request
start_request-Fits limit c corr_id e f = elim (Option-cases (map_get same corr_id c.pending)) [
  | inl n ↦
      rw (n, start_request)
        (request-Fits limit c corr_id (method_of e.method) (peers_of (present e.peer_id)) e.t f)
  | inr (p, h) ↦ elim (Option-cases (present e.peer_id)) [
    | inl n ↦ rw (h, n, start_request) f
    | inr (peer, n) ↦ rw (h, n, start_request) (await_peer-Fits limit c corr_id peer p h f)
  ]
]

end_request-Fits :
    (limit : ℕ) (c : Collector) (corr_id : JsString) (e : L2Event)
    → Fits limit c
    → Fits limit (end_request c corr_id e)
unfolding end_request
end_request-Fits limit c corr_id e f = elim (Option-cases (present e.peer_id)) [
  | inl n ↦ rw (n, end_request) f
  | inr (peer, n) ↦ rw (n, end_request) (response-Fits limit c corr_id peer e.t f)
]

route-Fits :
    (limit : ℕ) (c : Collector) (corr_id : JsString) (e : L2Event) (k : L2EventType)
    → Fits limit c
    → Fits limit (route c corr_id e k)
unfolding route
route-Fits limit c corr_id e request_start f = start_request-Fits limit c corr_id e f
route-Fits limit c corr_id e request_end f = end_request-Fits limit c corr_id e f
route-Fits limit c corr_id e message_in f = end_request-Fits limit c corr_id e f
route-Fits limit c corr_id e send_error f = end_request-Fits limit c corr_id e f
route-Fits limit c corr_id e message_out f = f
route-Fits limit c corr_id e backpressure_clear f = f
route-Fits limit c corr_id e conn_state f = f
route-Fits limit c corr_id e conn_stats f = f
route-Fits limit c corr_id e ws_open_attempt f = f
route-Fits limit c corr_id e ws_open f = f
route-Fits limit c corr_id e ws_close f = f
route-Fits limit c corr_id e ws_error f = f
route-Fits limit c corr_id e ws_message_out f = f
route-Fits limit c corr_id e ws_message_in f = f

emit-Fits : (limit : ℕ) (c : Collector) (e : L2Event) → Fits limit c → Fits limit (emit c e)
unfolding emit
emit-Fits limit c e f = elim (Option-cases (present e.corr_id)) [
  | inl n ↦ rw (n, emit) f
  | inr (corr_id, n) ↦ rw (n, emit) (route-Fits limit c corr_id e e.event_type f)
]

-- Whatever events the adapters emit, the collector keeps within the bounds of its options: the pending
-- map, the settled ids and the ring of rows.
pub emit_all-Fits :
    (limit : ℕ) (c : Collector) (es : List L2Event) → Fits limit c → Fits limit (emit_all c es)
unfolding emit_all
emit_all-Fits limit c [] f = f
emit_all-Fits limit c (e ∷ es) f = emit_all-Fits limit (emit c e) es (emit-Fits limit c e f)
