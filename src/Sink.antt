-- ===== src/Sink.antt =====
-- packages/bare-probe/core/sink.ts and packages/bare-probe/src/sink.ts: events routed to the collector.
-- An optional field is an `Option`; the fields that the sink does not read are left out. The time of an
-- event is its `t`, the default of `now`.
pub mod Routing
pub mod FanOut
mod Tests
use bare_network_inspect.Base.{
  ℕ, Option, none, some, List, [], ◌∷◌, length, ◌==◌, if◌then◌else◌, JsString, same, ascii, map_get,
  map_set, set_add,
}
use bare_network_inspect.Correlator.{Collector, PendingRequest, request, response}
use bare_network_inspect.Correlator

pub data L2EventType : Type 0 where
  request_start : L2EventType
  message_out : L2EventType
  request_end : L2EventType
  message_in : L2EventType
  send_error : L2EventType
  backpressure_clear : L2EventType
  conn_state : L2EventType
  conn_stats : L2EventType
  ws_open_attempt : L2EventType
  ws_open : L2EventType
  ws_close : L2EventType
  ws_error : L2EventType
  ws_message_out : L2EventType
  ws_message_in : L2EventType

pub record L2Event : Type 0 where
  pub event_type : L2EventType
  pub t : ℕ
  pub peer_id : Option JsString
  pub corr_id : Option JsString
  pub method : Option JsString

-- A string that the code takes for present: undefined and "" are not.
unfoldable pub present : Option JsString → Option JsString
present none = none
present (some s) = if length s == 0 then none else some s

-- `existing.awaiting.add(peer)` on the entry that the map holds.
unfoldable pub await_peer : Collector → JsString → PendingRequest → JsString → Collector
await_peer c corr_id existing peer = record c {
  pending =
      map_set same corr_id (record existing { awaiting = set_add same peer existing.awaiting })
        c.pending;
}

-- `[peer]`, or no peers.
unfoldable pub peers_of : Option JsString → List JsString
peers_of none = []
peers_of (some peer) = peer ∷ []

-- `event.method ?? '(unknown)'`.
unfoldable pub method_of : Option JsString → JsString
method_of none = ascii "(unknown)"
method_of (some method) = method

-- The case of 'request.start'.
unfoldable pub start_request : Collector → JsString → L2Event → Collector
start_request c corr_id e =
    let peer = present e.peer_id in
    elim (map_get same corr_id c.pending) [
      | some existing ↦ elim peer [ none ↦ c | some p ↦ await_peer c corr_id existing p ]
      | none ↦ request c corr_id (method_of e.method) (peers_of peer) e.t
    ]

-- The cases that answer for a peer.
unfoldable pub end_request : Collector → JsString → L2Event → Collector
end_request c corr_id e = elim (present e.peer_id) [
  | none ↦ c
  | some peer ↦ response c corr_id peer e.t
]

unfoldable pub route : Collector → JsString → L2Event → L2EventType → Collector
route c corr_id e request_start = start_request c corr_id e
route c corr_id e request_end = end_request c corr_id e
route c corr_id e message_in = end_request c corr_id e
route c corr_id e send_error = end_request c corr_id e
route c corr_id e message_out = c
route c corr_id e backpressure_clear = c
route c corr_id e conn_state = c
route c corr_id e conn_stats = c
route c corr_id e ws_open_attempt = c
route c corr_id e ws_open = c
route c corr_id e ws_close = c
route c corr_id e ws_error = c
route c corr_id e ws_message_out = c
route c corr_id e ws_message_in = c

unfoldable pub emit : Collector → L2Event → Collector
emit c e = elim (present e.corr_id) [ none ↦ c | some corr_id ↦ route c corr_id e e.event_type ]

-- `CollectorSink.sweep`.
unfoldable pub sweep : Collector → ℕ → Collector
sweep c now = Correlator.sweep c now
