-- ===== src/Observe/Tests.antt =====
-- Runs of packages/bare-observe/src.
use bare_network_inspect.Base.{
  ℕ, ◌≤◌, ◌≡◌, ◌≢◌, refl, arith, inr, Bool, true, Option, none, some, List, [], ◌∷◌, ◌++◌, map, All,
  length, keep_last, JsString, ascii, same, map_get,
}
use bare_network_inspect.Framing.{encode_frame, fresh, push_all}
use bare_network_inspect.Adapter.{Call, returned}
use bare_network_inspect.Observe.Exporter.{
  Stream, new_stream, new_deferred, attach, export_deferred, export_batches, export_batch,
  export_event, write_frame,
}
use bare_network_inspect.Observe.Exporter.Delivery.{events, export_all, push_all-attach}
use bare_network_inspect.Observe.Reporter.{
  Op, exported, ready, opened, lost, open_state, new_reporter, run,
}
use bare_network_inspect.Observe.Reporter.Queue.{run-le}
use bare_network_inspect.Observe.Reporter.Flush.{exports, run-opened}
use bare_network_inspect.Observe.Inflight.{ReportEvent, request_start, request_end, report_all}
use bare_network_inspect.Observe.Inflight.Tracking.{last_told, map_get-report_all}
use bare_network_inspect.Observe.WrapClient.{
  Result, plain, stream, Later, item, ended_stream, closed_stream, Site, call_trace, after_call,
  run_later, on_later, settle, monitor_stream, end_error, end_stream, start_event,
}
use bare_network_inspect.Observe.WrapClient
use bare_network_inspect.Observe.WrapClient.Trace.{ends, is_over, ends-call_trace}
use bare_network_inspect.Observe.Invoke
use bare_network_inspect.Observe.Invoke.{
  new_session, wrap, called, inbound, edited, Request, allows, split_method, split_dot, endpoint_of,
}
use bare_network_inspect.Observe.Invoke.Target.{AreOneDot}
use bare_network_inspect.Observe.Invoke.Safety.{IsAllowed, run-IsAllowed}

-- An event is a number here, and its bytes are that number.
abbrev encode : ℕ → Call ℕ (List ℕ)
encode e = returned (e ∷ [])

abbrev bytes : ℕ → List ℕ
bytes e = e ∷ []

abbrev write : ℕ → List ℕ → Call ℕ (Unit {0})
write n frame = returned tt

abbrev hub : Stream ℕ
hub = record {
  written = encode_frame (5 ∷ []) ∷ encode_frame (6 ∷ []) ∷ encode_frame (7 ∷ []) ∷ [];
  errors = [];
}

hub_lem :
    (export_all encode write
      (attach encode write (export_all encode write new_deferred ((5 ∷ 6 ∷ []) ∷ [])) new_stream)
      ((7 ∷ []) ∷ [])).live
    ≡ some hub
unfolding export_deferred attach export_batches export_batch export_event write_frame
hub_lem = refl

push_all-attach_example :
    push_all fresh (encode_frame (5 ∷ []) ∷ encode_frame (6 ∷ []) ∷ encode_frame (7 ∷ []) ∷ [])
    ≡ some (record { buffer = []; received = map bytes (events ((5 ∷ 6 ∷ []) ∷ (7 ∷ []) ∷ [])) })
push_all-attach_example =
    push_all-attach encode write bytes (λ a. refl) (λ n f. refl) ((5 ∷ 6 ∷ []) ∷ []) ((7 ∷ []) ∷ [])
      hub (encode_frame (5 ∷ []) ∷ encode_frame (6 ∷ []) ∷ encode_frame (7 ∷ []) ∷ []) (omega arith)
      hub_lem refl

abbrev all_sent : ℕ → Bool
all_sent n = true

run-opened_example :
    let r =
      run {A = ℕ} 2 all_sent new_reporter
        (exports ((1 ∷ 2 ∷ []) ∷ (3 ∷ []) ∷ []) ++ (ready open_state ∷ opened (some 9) ∷ [])) in
    (r.sent ≡ 9 ∷ keep_last 2 (events ((1 ∷ 2 ∷ []) ∷ (3 ∷ []) ∷ []))) × (r.queue ≡ [])
run-opened_example = run-opened 2 all_sent (λ n. refl) 9 (1 ∷ 2 ∷ []) ((3 ∷ []) ∷ []) (omega arith)

abbrev reporter_ops : List (Op ℕ)
reporter_ops = exported true true (1 ∷ 2 ∷ 3 ∷ []) ∷ lost ∷ []

run-le_example : length (run {A = ℕ} 2 all_sent new_reporter reporter_ops).queue ≤ 2
run-le_example = run-le 2 all_sent new_reporter reporter_ops (omega arith)

abbrev start_of : JsString → ReportEvent
start_of c = record { report_type = request_start; corr_id = some c; method = ascii "get"; t = 4 }

abbrev report_events : List ReportEvent
report_events =
    start_of (ascii "a")
    ∷ start_of (ascii "b")
    ∷ record { report_type = request_end; corr_id = some (ascii "a"); method = []; t = 5 }
    ∷ []

map_get-report_all_example :
    map_get same (ascii "b") (report_all [] report_events)
    ≡ last_told (ascii "b") none report_events
map_get-report_all_example = map_get-report_all report_events (ascii "b") (omega arith)

abbrev site : Site
site = record { endpoint = ascii "feed.watch"; corr_id = ascii "rpc-1"; tag = none }

abbrev whole : ℕ → ℕ
whole v = v

attaches : (v n : ℕ) (err : JsString) → stream 1 none ≢ stream v (some (n, err))
attaches v n err e = ground arith

ends-call_trace_example :
    ends
      (call_trace whole true site 0 (stream 1 none) (item 2 ∷ ended_stream ∷ closed_stream ∷ [])).0
    ≡ is_over {V = ℕ} true (stream 1 none) (item 2 ∷ ended_stream ∷ closed_stream ∷ [])
ends-call_trace_example =
    ends-call_trace whole true site 0 (stream 1 none) (item 2 ∷ ended_stream ∷ closed_stream ∷ [])
      attaches

-- A stream whose `on` throws at the third listener, and that fails later, has two ends.
two_ends :
    ends
      (call_trace whole true site 0
        (stream 1 (some (2, ascii "x")))
        (WrapClient.failed (ascii "y") ∷ [])).0
    ≡ 2
unfolding call_trace after_call monitor_stream run_later on_later settle end_error end_stream
    start_event
two_ends = refl

abbrev approve : Option (JsString → ℕ → Call JsString Bool)
approve = some (λ method args. returned true)

abbrev exists : JsString → Bool
exists endpoint = true

abbrev echo : JsString → ℕ → Result ℕ
echo endpoint args = plain args

abbrev invoke_ops : List (Invoke.Op ℕ)
invoke_ops =
    wrap
    ∷ called (ascii "db.put") 5 (plain 0)
    ∷ inbound (some (record { corr_id = ascii "rpc-1"; invoke_id = ascii "i"; args = edited 6 }))
    ∷ []

invoke_ops-AreOneDot : AreOneDot invoke_ops
invoke_ops-AreOneDot = (
  inr (
    ascii "db",
    ascii "put",
    ((λ e. ground arith), ((λ e. ground arith), tt)),
    ((λ e. ground arith), ((λ e. ground arith), ((λ e. ground arith), tt))),
    omega arith,
    refl,
  ),
  tt,
)

run-IsAllowed_example :
    let s = Invoke.run whole true true 100 approve exists echo new_session invoke_ops in
    All (IsAllowed true (allows approve) s.client.logged) s.invoked
run-IsAllowed_example =
    run-IsAllowed whole true true 100 approve exists echo invoke_ops invoke_ops-AreOneDot

-- A second dot is lost: a replay of `db.put.all` is made on `db.put`.
other_target : endpoint_of (split_method (ascii "db.put.all")) ≡ ascii "db.put"
unfolding split_method split_dot endpoint_of
other_target = refl
