-- ===== src/Observe/Invoke/Safety.antt =====
-- What the replay of packages/bare-observe/src/observe.ts can make a client do.
use bare_network_inspect.Base.{
  ℕ, ◌≡◌, refl, ap, arith, Bool, true, false, not, Option, none, some, inl, inr, List, [], ◌∷◌,
  ◌++◌, if◌then◌else◌, JsString, same, map_get, All, All-append, Bool-cases,
}
use bare_network_inspect.Adapter.{Call}
use bare_network_inspect.Observe.WrapClient.{
  InvokeContext, Result, observed, site_of, set_invoke_context,
}
use bare_network_inspect.Observe.Invoke.{
  Session, new_session, Request, Invocation, ErrorText, threw_error, unknown_corr_id, bad_args,
  client_not_wrapped, method_unavailable, blocked_by_can_replay, note_error, split_method,
  endpoint_of, emit_invoke_error, args_of, error_of, wrap_client, call_wrapped, invoke, allows,
  replay, replay_args, replay_logged, handle_invoke, Op, wrap, called, inbound, step, run,
}
use bare_network_inspect.Observe.Invoke.Target.{AreOneDot, endpoint_of-split_method}
use bare_network_inspect.Observe.Invoke.Log.{
  Logged, Logged-append, Logged-last, All-weaken, All-bounded_set, All-map_get,
}

module _ {V : Type 0} (enabled : Bool) (allows_call : JsString → V → Option Bool) where
  -- A replay of a logged call, that the app let run.
  pub record IsAllowed (log : List (JsString × (JsString × V))) (i : Invocation V) : Type 0 where
    pub logged_args : V
    pub logged : Logged (i.replay_of, (i.method, logged_args)) log
    pub made_id : JsString
    pub made : Logged (made_id, (i.endpoint, i.args)) log
    pub target : i.endpoint ≡ i.method
    pub allowed : allows_call i.method i.args ≡ some true
    pub on : enabled ≡ true

  IsAllowed-append :
      (log more : List (JsString × (JsString × V))) (i : Invocation V)
      → IsAllowed log i
      → IsAllowed (log ++ more) i
  IsAllowed-append log more i h = record {
    logged_args = h.logged_args;
    logged = Logged-append (i.replay_of, (i.method, h.logged_args)) log more h.logged;
    made_id = h.made_id;
    made = Logged-append (h.made_id, (i.endpoint, i.args)) log more h.made;
    target = h.target;
    allowed = h.allowed;
    on = h.on;
  }

  -- A name of which the replay loses nothing.
  abbrev IsWhole : JsString → Type 0
  IsWhole method = endpoint_of (split_method method) ≡ method

  -- What can be replayed is in the log of all calls, and so is all that was.
  record IsKept (s : Session V) : Type 0 where
    recent : All (λ e. Logged e s.client.logged) s.recent_calls
    whole : All (λ e. IsWhole e.1.0) s.recent_calls
    invoked : All (IsAllowed s.client.logged) s.invoked

module _ {V : Type 0} (preview : V → V) (monitor enabled : Bool) (replay_log_max : ℕ)
    (can_replay : Option (JsString → V → Call JsString Bool)) (has_function : JsString → Bool)
    (behaviour : JsString → V → Result V) where
  abbrev Kept : Session V → Type 0
  Kept s = IsKept enabled (allows can_replay) s

  abbrev Whole : JsString → Type 0
  Whole method = IsWhole enabled (allows can_replay) method

  call_wrapped-Kept :
      (endpoint : JsString) (args : V) (result : Result V) (s : Session V)
      → Whole endpoint
      → Kept s
      → Kept (call_wrapped preview monitor enabled replay_log_max endpoint args result s)
  unfolding call_wrapped observed
  call_wrapped-Kept endpoint args result s w h =
      let site = site_of preview s.client endpoint in
      let call : JsString × (JsString × V) = (site.corr_id, (endpoint, args)) in
      let log = s.client.logged in
      let recent =
        All-weaken (λ e. Logged e log) (λ e. Logged e (log ++ (call ∷ []))) s.recent_calls
          (λ e k. Logged-append e log (call ∷ []) k) h.recent in
      record {
        recent = elim (Bool-cases enabled) [
          | inl e ↦ rw e (
              All-bounded_set (λ e. Logged e (log ++ (call ∷ []))) replay_log_max site.corr_id
                (endpoint, args) s.recent_calls (Logged-last call log) recent)
          | inr e ↦ rw e recent
        ];
        whole = elim (Bool-cases enabled) [
          | inl e ↦ rw e (
              All-bounded_set (λ e. Whole e.1.0) replay_log_max site.corr_id (endpoint, args)
                s.recent_calls w h.whole)
          | inr e ↦ rw e h.whole
        ];
        invoked =
            All-weaken (IsAllowed enabled (allows can_replay) log)
              (IsAllowed enabled (allows can_replay) (log ++ (call ∷ []))) s.invoked
              (λ i k. IsAllowed-append enabled (allows can_replay) log (call ∷ []) i k) h.invoked;
      }

  emit_invoke_error-Kept :
      (q : Request V) (error : ErrorText) (s : Session V)
      → Kept s
      → Kept (emit_invoke_error q error s)
  unfolding emit_invoke_error
  emit_invoke_error-Kept q error s h = record {
    recent = h.recent;
    whole = h.whole;
    invoked = h.invoked;
  }

  note_error-Kept :
      (q : Request V) (err : Option JsString) (s : Session V) → Kept s → Kept (note_error q err s)
  unfolding note_error
  note_error-Kept q none s h = h
  note_error-Kept q (some err) s h = emit_invoke_error-Kept q (threw_error err) s h

  invoke-Kept :
      (q : Request V) (method : JsString) (logged_args args : V) (s : Session V)
      → enabled ≡ true
      → Logged (q.corr_id, (method, logged_args)) s.client.logged
      → Whole method
      → allows can_replay method args ≡ some true
      → Kept s
      → Kept (
          invoke preview monitor enabled replay_log_max can_replay has_function behaviour q method
            args s)
  unfolding invoke set_invoke_context call_wrapped observed
  invoke-Kept q method logged_args args s on l w a h =
      let endpoint = endpoint_of (split_method method) in
      let result = behaviour endpoint args in
      let ctx : InvokeContext = record {
        invoke_id = q.invoke_id;
        replay_of = q.corr_id;
        method = method;
      } in
      let before : Session V = record s { client = set_invoke_context (some ctx) s.client } in
      let call : JsString × (JsString × V) =
        ((site_of preview before.client endpoint).corr_id, (endpoint, args)) in
      let log = s.client.logged ++ (call ∷ []) in
      let new : Invocation V = record {
        replay_of = q.corr_id;
        method = method;
        endpoint = endpoint;
        args = args;
      } in
      let k =
        call_wrapped-Kept endpoint args result before (ap (λ e. endpoint_of (split_method e)) w)
          (record { recent = h.recent; whole = h.whole; invoked = h.invoked }) in
      let new-IsAllowed : IsAllowed enabled (allows can_replay) log new = record {
        logged_args = logged_args;
        logged = Logged-append (q.corr_id, (method, logged_args)) s.client.logged (call ∷ []) l;
        made_id = (site_of preview before.client endpoint).corr_id;
        made = Logged-last call s.client.logged;
        target = w;
        allowed = a;
        on = on;
      } in
      note_error-Kept q (error_of result) _ (record {
        recent = k.recent;
        whole = k.whole;
        invoked =
            All-append (IsAllowed enabled (allows can_replay) log) s.invoked (new ∷ []) k.invoked
              (new-IsAllowed, tt);
      })

  if-Kept :
      (b : Bool) (x y : Session V)
      → (b ≡ true → Kept x)
      → (b ≡ false → Kept y)
      → Kept (if b then x else y)
  if-Kept true x y f g = f refl
  if-Kept false x y f g = g refl

  replay-Kept :
      (q : Request V) (method : JsString) (logged_args args : V) (verdict : Option Bool)
      (s : Session V)
      → enabled ≡ true
      → Logged (q.corr_id, (method, logged_args)) s.client.logged
      → Whole method
      → allows can_replay method args ≡ verdict
      → Kept s
      → Kept (
          replay preview monitor enabled replay_log_max can_replay has_function behaviour q method
            args verdict s)
  unfolding replay
  replay-Kept q method logged_args args none s on l w v h = h
  replay-Kept q method logged_args args (some false) s on l w v h =
      emit_invoke_error-Kept q blocked_by_can_replay s h
  replay-Kept q method logged_args args (some true) s on l w v h =
      if-Kept (has_function (endpoint_of (split_method method))) _ _
        (λ f. invoke-Kept q method logged_args args s on l w v h)
        (λ f. emit_invoke_error-Kept q method_unavailable s h)

  replay_args-Kept :
      (q : Request V) (method : JsString) (logged_args : V) (args : Option V) (s : Session V)
      → enabled ≡ true
      → Logged (q.corr_id, (method, logged_args)) s.client.logged
      → Whole method
      → Kept s
      → Kept (
          replay_args preview monitor enabled replay_log_max can_replay has_function behaviour q
            method args s)
  unfolding replay_args
  replay_args-Kept q method logged_args none s on l w h = emit_invoke_error-Kept q bad_args s h
  replay_args-Kept q method logged_args (some args) s on l w h =
      replay-Kept q method logged_args args (allows can_replay method args) s on l w refl h

  replay_logged-Kept :
      (q : Request V) (entry : Option (JsString × V)) (s : Session V)
      → enabled ≡ true
      → map_get same q.corr_id s.recent_calls ≡ entry
      → Kept s
      → Kept (
          replay_logged preview monitor enabled replay_log_max can_replay has_function behaviour q
            entry s)
  unfolding replay_logged
  replay_logged-Kept q none s on e h = emit_invoke_error-Kept q unknown_corr_id s h
  replay_logged-Kept q (some (method, logged_args)) s on e h =
      replay_args-Kept q method logged_args (args_of q.args logged_args) s on
        (All-map_get (λ c. Logged c s.client.logged) q.corr_id s.recent_calls (method, logged_args)
          h.recent e)
        (All-map_get (λ c. Whole c.1.0) q.corr_id s.recent_calls (method, logged_args) h.whole e) h

  handle_invoke-Kept :
      (msg : Option (Request V)) (s : Session V)
      → Kept s
      → Kept (
          handle_invoke preview monitor enabled replay_log_max can_replay has_function behaviour msg
            s)
  unfolding handle_invoke
  handle_invoke-Kept none s h = h
  handle_invoke-Kept (some q) s h =
      if-Kept (not enabled) _ _ (λ e. h)
        (λ e.
          if-Kept (not s.wrapped) _ _ (λ w. emit_invoke_error-Kept q client_not_wrapped s h)
            (λ w.
              replay_logged-Kept q (map_get same q.corr_id s.recent_calls) s (ground arith) refl h))

  -- Each call of the app is on a function whose name the replay can find again.
  abbrev WholeCalls : Op V → Type 0
  WholeCalls wrap = Unit {0}
  WholeCalls (called endpoint args result) = Whole endpoint
  WholeCalls (inbound msg) = Unit {0}

  step-Kept :
      (op : Op V) (s : Session V)
      → WholeCalls op
      → Kept s
      → Kept (step preview monitor enabled replay_log_max can_replay has_function behaviour op s)
  unfolding step wrap_client
  step-Kept wrap s w h = record { recent = h.recent; whole = h.whole; invoked = h.invoked }
  step-Kept (called endpoint args result) s w h = call_wrapped-Kept endpoint args result s w h
  step-Kept (inbound msg) s w h = handle_invoke-Kept msg s h

  run-Kept :
      (ops : List (Op V)) (s : Session V)
      → AreOneDot ops
      → Kept s
      → Kept (run preview monitor enabled replay_log_max can_replay has_function behaviour s ops)
  unfolding run
  run-Kept [] s a h = h
  run-Kept (wrap ∷ ops) s a h = run-Kept ops _ a (step-Kept wrap s tt h)
  run-Kept (called endpoint args result ∷ ops) s a h =
      run-Kept ops _ a.1
        (step-Kept (called endpoint args result) s (endpoint_of-split_method endpoint a.0) h)
  run-Kept (inbound msg ∷ ops) s a h = run-Kept ops _ a (step-Kept (inbound msg) s tt h)

  -- If the functions that the app calls are all named `ns` or `ns.m`, with no further dot and `m`
  -- not empty, then whatever the viewer sends, every call that a replay made is a call of the
  -- method of a logged call, which the request named by its id, and stands in the client's log
  -- itself; `canReplay` returned true for it, if there is one, and replay was enabled.
  pub run-IsAllowed :
      (ops : List (Op V))
      → AreOneDot ops
      → let s =
          run preview monitor enabled replay_log_max can_replay has_function behaviour new_session
            ops in
        All (IsAllowed enabled (allows can_replay) s.client.logged) s.invoked
  run-IsAllowed ops a =
      (run-Kept ops new_session a (record { recent = tt; whole = tt; invoked = tt })).invoked
