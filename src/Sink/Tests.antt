-- ===== src/Sink/Tests.antt =====
-- Runs of the sink of core/sink.ts.
use bare_network_inspect.Base.{
  ◌≡◌, refl, none, List, [], ◌∷◌, arith, JsString, same, ascii, map_get,
}
use bare_network_inspect.RingBuffer
use bare_network_inspect.Correlator.{Collector, CollectorOptions, request}
use bare_network_inspect.Correlator
use bare_network_inspect.Correlator.Bounds.{new-IsBounded}
use bare_network_inspect.Sink.{L2Event, message_in, present, emit}
use bare_network_inspect.Sink.Routing.{emit_all, Fits, emit_all-Fits}
use bare_network_inspect.Sink.FanOut.{start_of, announcements, announcements-request}

abbrev empty : Collector
empty = record {
  events = record { capacity = 2; dropped = 0; buf = none ∷ none ∷ []; head = 0; count = 0 };
  pending = [];
  max_pending = 1;
  timeout_ms = 100;
  max_settled = 2;
  pending_dropped = 0;
  timed_out = 0;
  late_after_timeout = 0;
  settled = [];
}

abbrev options : CollectorOptions
options = record { max_events = 2; max_pending = 1; timeout_ms = 100; max_settled = 2 }

abbrev id : JsString
id = ascii "r1"

abbrev starts : List L2Event
starts = start_of id (ascii "get") 5 (ascii "a") ∷ start_of id (ascii "get") 6 (ascii "b") ∷ []

empty-Fits : Fits 2 empty
unfolding Correlator.new Correlator.with_events RingBuffer.new
empty-Fits = ([], new-IsBounded options refl)

emit_all-Fits_example : Fits 2 (emit_all empty starts)
emit_all-Fits_example = emit_all-Fits 2 empty starts empty-Fits

-- An event without a correlation id, or with the empty one, changes nothing.
uncorrelated :
    emit empty (record (start_of [] (ascii "get") 5 (ascii "a")) { event_type = message_in })
    ≡ empty
unfolding emit present
uncorrelated = refl

announcements-request_example :
    map_get same id
      (emit_all empty (announcements id (ascii "get") 5 (ascii "a" ∷ ascii "b" ∷ []))).pending
    ≡ map_get same id (request empty id (ascii "get") (ascii "a" ∷ ascii "b" ∷ []) 5).pending
unfolding map_get
announcements-request_example =
    announcements-request empty id (ascii "get") 5 (ascii "a") (ascii "b" ∷ []) (omega arith)
      (omega arith, (omega arith, tt)) refl (omega arith)
