-- ===== src/Observe/Invoke.antt =====
-- packages/bare-observe/src/observe.ts: the replay of a logged call on the viewer's request.
-- The ids of a request are strings here, which the code makes them with `String`. The host's parts are
-- parameters: `can_replay`, if the app gave one, which may throw; whether the client has a function of a
-- name; what it does with its arguments.
pub mod Log
pub mod Target
pub mod Safety
use bare_network_inspect.Base.{
  ℕ, ◌==◌, Bool, true, false, not, ◌&&◌, Option, none, some, List, [], ◌∷◌, ◌++◌, length,
  if◌then◌else◌, JsString, ascii, same, map_get,
}
use bare_network_inspect.Adapter.{Call, returned, threw}
use bare_network_inspect.Observe.Inflight.{bounded_set}
use bare_network_inspect.Observe.WrapClient.{
  Client, InvokeContext, Result, site_of, observed, set_invoke_context,
}
use bare_network_inspect.Observe.WrapClient

pub data ErrorText : Type 0 where
  client_not_wrapped : ErrorText
  unknown_corr_id : ErrorText
  bad_args : ErrorText
  blocked_by_can_replay : ErrorText
  method_unavailable : ErrorText
  threw_error : (err : JsString) → ErrorText

-- The event of `emitInvokeError`.
pub record InvokeError : Type 0 where
  pub invoke_id : JsString
  pub replay_of : JsString
  pub error : ErrorText

-- `msg.__invoke.args`.
pub data EditedArgs (V : Type 0) : Type 0 where
  not_edited : EditedArgs V
  no_array : EditedArgs V
  edited : V → EditedArgs V

pub record Request (V : Type 0) : Type 0 where
  pub corr_id : JsString
  pub invoke_id : JsString
  pub args : EditedArgs V

-- A call that a replay made: of the logged call `replay_of` of `method`, on the function `endpoint`.
pub record Invocation (V : Type 0) : Type 0 where
  pub replay_of : JsString
  pub method : JsString
  pub endpoint : JsString
  pub args : V

pub record Session (V : Type 0) : Type 0 where
  pub client : Client V
  pub wrapped : Bool
  pub recent_calls : List (JsString × (JsString × V))
  pub errors : List InvokeError
  pub invoked : List (Invocation V)

abbrev pub new_session : {V : Type 0} → Session V
new_session = record {
  client = record { seq = 0; invoke_ctx = none; reported = []; logged = [] };
  wrapped = false;
  recent_calls = [];
  errors = [];
  invoked = [];
}

-- `invokeEnabled`, of `opts.allowInvoke === true` and `opts.websocket`.
unfoldable pub invoke_enabled : (allow_invoke : Option Bool) (websocket : Option JsString) → Bool
invoke_enabled (some true) (some url) = not (length url == 0)
invoke_enabled allow_invoke websocket = false

-- The text before the first dot, and the rest behind it if there is a dot.
unfoldable pub split_dot : JsString → JsString × Option JsString
split_dot [] = ([], none)
split_dot (ch ∷ s) =
    let rest = split_dot s in if ch == 46 then ([], some s) else (ch ∷ rest.0, rest.1)

-- `[ns, m] = rec.method.split('.', 2)`; an empty `m` is taken for none.
unfoldable pub split_method : JsString → JsString × Option JsString
split_method method = (
  (split_dot method).0,
  elim (split_dot method).1 [
    | none ↦ none
    | some rest ↦ if length (split_dot rest).0 == 0 then none else some (split_dot rest).0
  ],
)

-- The name of the function `wrapped[ns][m]` or `wrapped[ns]`.
unfoldable pub endpoint_of : JsString × Option JsString → JsString
endpoint_of (ns, none) = ns
endpoint_of (ns, some m) = ns ++ (46 ∷ m)

-- What may happen to a session: the app wraps its client or calls a function of it, a message comes in.
pub data Op (V : Type 0) : Type 0 where
  wrap : Op V
  called : (endpoint : JsString) → V → Result V → Op V
  inbound : Option (Request V) → Op V

module _ {V : Type 0} where
  unfoldable pub emit_invoke_error : Request V → ErrorText → Session V → Session V
  emit_invoke_error q error s = record s {
    errors =
        s.errors ++ (record { invoke_id = q.invoke_id; replay_of = q.corr_id; error = error } ∷ []);
  }

  unfoldable pub args_of : EditedArgs V → V → Option V
  args_of not_edited logged = some logged
  args_of no_array logged = none
  args_of (edited args) logged = some args

  -- The error of a call that threw.
  unfoldable pub error_of : Result V → Option JsString
  error_of (WrapClient.threw err) = some err
  error_of result = none

  unfoldable pub note_error : Request V → Option JsString → Session V → Session V
  note_error q none s = s
  note_error q (some err) s = emit_invoke_error q (threw_error err) s

  unfoldable pub wrap_client : Session V → Session V
  wrap_client s = record s { wrapped = true }

  -- Whether the app lets the replay run; `none` if its function throws.
  unfoldable pub allows : Option (JsString → V → Call JsString Bool) → JsString → V → Option Bool
  allows none method args = some true
  allows (some f) method args = elim (f method args) [ returned b ↦ some b | threw err ↦ none ]

  module _ (preview : V → V) (monitor_streams enabled : Bool) (replay_log_max : ℕ) where
    -- A call of a wrapped function, which `recordCall` logs if replay is enabled.
    unfoldable pub call_wrapped : JsString → V → Result V → Session V → Session V
    call_wrapped endpoint args result s = record s {
      client = (observed preview monitor_streams endpoint args result s.client).0;
      recent_calls =
          if enabled
          then bounded_set replay_log_max (site_of preview s.client endpoint).corr_id
              (endpoint, args) s.recent_calls
          else s.recent_calls;
    }

    module _ (can_replay : Option (JsString → V → Call JsString Bool))
        (has_function : JsString → Bool) (behaviour : JsString → V → Result V) where
      -- The `try` and its `finally`.
      unfoldable pub invoke : Request V → JsString → V → Session V → Session V
      invoke q method args s =
          let endpoint = endpoint_of (split_method method) in
          let ctx : InvokeContext = record {
            invoke_id = q.invoke_id;
            replay_of = q.corr_id;
            method = method;
          } in
          let result = behaviour endpoint args in
          let before : Session V = record s { client = set_invoke_context (some ctx) s.client } in
          let called = call_wrapped endpoint args result before in
          let noted : Session V = record called {
            client = set_invoke_context none called.client;
            invoked =
                s.invoked
                ++ (record {
                  replay_of = q.corr_id;
                  method = method;
                  endpoint = endpoint;
                  args = args;
                }
                    ∷ []);
          } in
          note_error q (error_of result) noted

      -- From `canReplay` on; the socket's handler swallows its throw.
      unfoldable pub replay : Request V → JsString → V → Option Bool → Session V → Session V
      replay q method args none s = s
      replay q method args (some false) s = emit_invoke_error q blocked_by_can_replay s
      replay q method args (some true) s =
          if has_function (endpoint_of (split_method method))
          then invoke q method args s
          else emit_invoke_error q method_unavailable s

      unfoldable pub replay_args : Request V → JsString → Option V → Session V → Session V
      replay_args q method none s = emit_invoke_error q bad_args s
      replay_args q method (some args) s = replay q method args (allows can_replay method args) s

      unfoldable pub replay_logged : Request V → Option (JsString × V) → Session V → Session V
      replay_logged q none s = emit_invoke_error q unknown_corr_id s
      replay_logged q (some (method, logged)) s = replay_args q method (args_of q.args logged) s

      -- `handleInvoke`; a message without `__invoke` is `none`.
      unfoldable pub handle_invoke : Option (Request V) → Session V → Session V
      handle_invoke none s = s
      handle_invoke (some q) s =
          if not enabled
          then s
          else if not s.wrapped
          then emit_invoke_error q client_not_wrapped s
          else replay_logged q (map_get same q.corr_id s.recent_calls) s

      unfoldable pub step : Op V → Session V → Session V
      step wrap s = wrap_client s
      step (called endpoint args result) s = call_wrapped endpoint args result s
      step (inbound msg) s = handle_invoke msg s

      unfoldable pub run : Session V → List (Op V) → Session V
      run s [] = s
      run s (op ∷ ops) = run (step op s) ops
