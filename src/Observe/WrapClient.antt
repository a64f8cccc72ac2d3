-- ===== src/Observe/WrapClient.antt =====
-- packages/bare-observe/src/wrap-client.ts: the calls of a client and of its streams, as events.
-- A value is `V`; the times and durations of the events are left out. What a call of the app's function
-- returns is given, and so is what happens to its promise or its stream later. `String(err)` is an
-- argument, as the text of an error.
pub mod Trace
use bare_network_inspect.Base.{
  ℕ, suc, Bool, true, false, Option, none, some, List, [], ◌∷◌, ◌++◌, length, ltb, if◌then◌else◌,
  JsString, ascii,
}
use bare_network_inspect.Registry.{is_same}
use bare_network_inspect.Hlc.{decimal}

pub data EventKind : Type 0 where
  request_start : EventKind
  request_end : EventKind
  stream_open : EventKind
  stream_data : EventKind

pub data Status : Type 0 where
  status_ok : Status
  status_error : Status
  status_closed : Status

-- The context of a replay, and the tag that it gives to the events: `origin: 'gui'` and two ids.
pub record InvokeContext : Type 0 where
  pub invoke_id : JsString
  pub replay_of : JsString
  pub method : JsString

pub record Tag : Type 0 where
  pub invoke_id : JsString
  pub replay_of : JsString

-- An event; `payload` is the args, the response or the item, as previewed.
pub record ClientEvent (V : Type 0) : Type 0 where
  pub kind : EventKind
  pub method : JsString
  pub corr_id : JsString
  pub tag : Option Tag
  pub payload : Option V
  pub status : Option Status
  pub error : Option JsString
  pub seq : Option ℕ
  pub count : Option ℕ

-- The module's variables, what has been reported, and the calls that `onCall` was given.
pub record Client (V : Type 0) : Type 0 where
  pub seq : ℕ
  pub invoke_ctx : Option InvokeContext
  pub reported : List (ClientEvent V)
  pub logged : List (JsString × (JsString × V))

-- What the app's function did; `attached` is the error of `stream.on`, if it throws, and how many of
-- the four listeners were on the stream by then.
pub data Result (V : Type 0) : Type 0 where
  threw : (err : JsString) → Result V
  promise : Result V
  stream : (value : V) → (attached : Option (ℕ × JsString)) → Result V
  plain : (value : V) → Result V

-- What a call waits for; `streaming` has the items so far, `ended`, and the number of its listeners.
pub data Phase : Type 0 where
  pending : Phase
  streaming : (n : ℕ) → (ended : Bool) → (listeners : ℕ) → Phase
  finished : Phase

-- What happens to a promise or to a stream.
pub data Later (V : Type 0) : Type 0 where
  resolved : V → Later V
  rejected : (err : JsString) → Later V
  item : V → Later V
  failed : (err : JsString) → Later V
  ended_stream : Later V
  closed_stream : Later V

-- What the events of one call have in common.
pub record Site : Type 0 where
  pub endpoint : JsString
  pub corr_id : JsString
  pub tag : Option Tag

unfoldable pub set_invoke_context : {V : Type 0} → Option InvokeContext → Client V → Client V
set_invoke_context ctx c = record c { invoke_ctx = ctx }

-- The tag of a call, and the context after: it is used up by a call of its method.
unfoldable pub take_tag : Option InvokeContext → JsString → Option Tag × Option InvokeContext
take_tag none endpoint = (none, none)
take_tag (some ctx) endpoint =
    if is_same ctx.method endpoint
    then (some (record { invoke_id = ctx.invoke_id; replay_of = ctx.replay_of }), none)
    else (none, some ctx)

module _ {V : Type 0} where
  abbrev pub event : EventKind → Site → ClientEvent V
  event kind site = record {
    kind = kind;
    method = site.endpoint;
    corr_id = site.corr_id;
    tag = site.tag;
    payload = none;
    status = none;
    error = none;
    seq = none;
    count = none;
  }

  unfoldable pub end_ok : Site → V → ClientEvent V
  end_ok site response = record (event request_end site) {
    status = some status_ok;
    payload = some response;
  }

  unfoldable pub end_error : Site → JsString → ClientEvent V
  end_error site err = record (event request_end site) {
    status = some status_error;
    error = some err;
  }

  -- `settle` of a stream that has not ended.
  unfoldable pub end_stream : Site → ℕ → Status → Option JsString → ClientEvent V
  end_stream site n status err = record (event request_end site) {
    status = some status;
    count = some n;
    error = err;
  }

  module _ (preview : V → V) where
    -- `monitorStream`.
    unfoldable pub monitor_stream : Site → Option (ℕ × JsString) → List (ClientEvent V) × Phase
    monitor_stream site none = (event stream_open site ∷ [], streaming 0 false 4)
    monitor_stream site (some (listeners, err)) = (
      event stream_open site ∷ end_error site (ascii "monitor-failed: " ++ err) ∷ [],
      streaming 0 false listeners,
    )

    -- What is reported when the function has returned or thrown.
    unfoldable pub after_call :
        (monitor_streams : Bool) → Site → Result V → List (ClientEvent V) × Phase
    after_call monitor site (threw err) = (end_error site err ∷ [], finished)
    after_call monitor site promise = ([], pending)
    after_call true site (stream v attached) = monitor_stream site attached
    after_call false site (stream v attached) = (end_ok site (preview v) ∷ [], finished)
    after_call monitor site (plain v) = (end_ok site (preview v) ∷ [], finished)

    -- The site of the next call.
    unfoldable pub site_of : Client V → JsString → Site
    site_of c endpoint = record {
      endpoint = endpoint;
      corr_id = ascii "rpc-" ++ decimal (suc c.seq);
      tag = (take_tag c.invoke_ctx endpoint).0;
    }

    unfoldable pub start_event : Site → V → ClientEvent V
    start_event site args = record (event request_start site) { payload = some (preview args) }

    -- The function that `wrapFn` returns; the `catch` around `onCall` has nothing to do here.
    unfoldable pub observed :
        (monitor_streams : Bool) → JsString → V → Result V → Client V → Client V × Phase
    observed monitor endpoint args result c =
        let site = site_of c endpoint in
        let after = after_call monitor site result in
        (
          record {
            seq = suc c.seq;
            invoke_ctx = (take_tag c.invoke_ctx endpoint).1;
            reported = c.reported ++ (start_event site args ∷ after.0);
            logged = c.logged ++ ((site.corr_id, (endpoint, args)) ∷ []);
          },
          after.1,
        )

    -- `settle`, under the listener with the given number.
    unfoldable pub settle :
        Site → ℕ → Bool → ℕ → ℕ → Status → Option JsString → List (ClientEvent V) × Phase
    settle site n ended listeners number status err =
        if ltb number listeners
        then (if ended
            then ([], streaming n ended listeners)
            else (end_stream site n status err ∷ [], streaming n true listeners))
        else ([], streaming n ended listeners)

    -- A listener of a promise or of a stream: what it reports.
    unfoldable pub on_later : Site → Phase → Later V → List (ClientEvent V) × Phase
    on_later site pending (resolved v) = (end_ok site (preview v) ∷ [], finished)
    on_later site pending (rejected err) = (end_error site err ∷ [], finished)
    on_later site (streaming n ended listeners) (item v) =
        if ltb 0 listeners
        then (
          record (event stream_data site) { seq = some (suc n); payload = some (preview v) } ∷ [],
          streaming (suc n) ended listeners,
        )
        else ([], streaming n ended listeners)
    on_later site (streaming n ended listeners) (failed err) =
        settle site n ended listeners 1 status_error (some err)
    on_later site (streaming n ended listeners) ended_stream =
        settle site n ended listeners 2 status_closed none
    on_later site (streaming n ended listeners) closed_stream =
        settle site n ended listeners 3 status_closed none
    on_later site phase later = ([], phase)

    unfoldable pub run_later : Site → Phase → List (Later V) → List (ClientEvent V) × Phase
    run_later site phase [] = ([], phase)
    run_later site phase (l ∷ ls) =
        let out = on_later site phase l in
        let rest = run_later site out.1 ls in (out.0 ++ rest.0, rest.1)

    -- All that one call reports, and what it waits for in the end.
    unfoldable pub call_trace :
        (monitor_streams : Bool)
        → Site
        → V
        → Result V
        → List (Later V)
        → List (ClientEvent V) × Phase
    call_trace monitor site args result ls =
        let after = after_call monitor site result in
        let rest = run_later site after.1 ls in
        (start_event site args ∷ (after.0 ++ rest.0), rest.1)
