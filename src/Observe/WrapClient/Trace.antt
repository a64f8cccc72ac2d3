-- ===== src/Observe/WrapClient/Trace.antt =====
-- The events of one call of a wrapped client.
use bare_network_inspect.Base.{
  ℕ, suc, ◌+◌, ◌≡◌, ◌≢◌, refl, ap, arith, Bool, true, false, Option, none, some, inl, inr, List, [],
  ◌∷◌, ◌++◌, ltb, JsString, All, All-append, Bool-cases,
}
use bare_network_inspect.Observe.WrapClient.{
  ClientEvent, EventKind, request_start, request_end, stream_open, stream_data, Status,
  status_error, status_closed, Result, threw, promise, stream, plain, Phase, pending, streaming,
  finished, Later, resolved, rejected, item, failed, ended_stream, closed_stream, Site, end_ok,
  end_error, end_stream, monitor_stream, after_call, start_event, settle, on_later, run_later,
  call_trace,
}

abbrev pub ends_by : EventKind → ℕ
ends_by request_start = 0
ends_by request_end = 1
ends_by stream_open = 0
ends_by stream_data = 0

-- The number of `request.end` events.
abbrev pub ends : {V : Type 0} → List (ClientEvent V) → ℕ
ends [] = 0
ends (e ∷ es) = ends_by e.kind + ends es

-- How many ends a phase has behind it.
abbrev settled : Phase → ℕ
settled pending = 0
settled (streaming n true listeners) = 1
settled (streaming n false listeners) = 0
settled finished = 1

-- Whether a promise is resolved or rejected by what happens.
abbrev pub promise_settles : {V : Type 0} → List (Later V) → ℕ
promise_settles [] = 0
promise_settles (resolved v ∷ ls) = 1
promise_settles (rejected err ∷ ls) = 1
promise_settles (l ∷ ls) = promise_settles ls

-- Whether a stream fails, ends or closes by what happens.
abbrev pub stream_settles : {V : Type 0} → List (Later V) → ℕ
stream_settles [] = 0
stream_settles (failed err ∷ ls) = 1
stream_settles (ended_stream ∷ ls) = 1
stream_settles (closed_stream ∷ ls) = 1
stream_settles (l ∷ ls) = stream_settles ls

-- Whether a call is over: it threw or returned a value that nobody waits for, or its promise or its
-- monitored stream is.
abbrev pub is_over : {V : Type 0} → (monitor : Bool) → Result V → List (Later V) → ℕ
is_over monitor (threw err) ls = 1
is_over monitor promise ls = promise_settles ls
is_over true (stream v attached) ls = stream_settles ls
is_over false (stream v attached) ls = 1
is_over monitor (plain v) ls = 1

-- A result whose stream, if it is one, takes all four listeners.
abbrev pub Attaches : {V : Type 0} → Result V → Type 0
Attaches {V = V} r = (v : V) (n : ℕ) (err : JsString) → r ≢ stream v (some (n, err))

module _ {V : Type 0} (preview : V → V) where
  ends-append : (xs ys : List (ClientEvent V)) → ends (xs ++ ys) ≡ ends xs + ends ys
  ends-append [] ys = omega arith
  ends-append (x ∷ xs) ys = omega (arith, ends-append xs ys)

  ends-settle :
      (site : Site) (n : ℕ) (ended : Bool) (listeners number : ℕ) (how : Status)
      (err : Option JsString)
      → let out = settle preview site n ended listeners number how err in
        ends out.0 + settled (streaming n ended listeners) ≡ settled out.1
  unfolding settle end_stream
  ends-settle site n ended listeners number how err = ground arith

  ends-on_later :
      (site : Site) (phase : Phase) (l : Later V)
      → let out = on_later preview site phase l in ends out.0 + settled phase ≡ settled out.1
  unfolding on_later end_ok end_error
  ends-on_later site pending l = ground arith
  ends-on_later site finished l = ground arith
  ends-on_later site (streaming n ended k) (failed err) =
      ends-settle site n ended k 1 status_error (some err)
  ends-on_later site (streaming n ended k) ended_stream =
      ends-settle site n ended k 2 status_closed none
  ends-on_later site (streaming n ended k) closed_stream =
      ends-settle site n ended k 3 status_closed none
  ends-on_later site (streaming n ended k) (item v) = ground arith
  ends-on_later site (streaming n ended k) (resolved v) = ground arith
  ends-on_later site (streaming n ended k) (rejected err) = ground arith

  ends-run_later :
      (site : Site) (phase : Phase) (ls : List (Later V))
      → let out = run_later preview site phase ls in ends out.0 + settled phase ≡ settled out.1
  unfolding run_later
  ends-run_later site phase [] = omega arith
  ends-run_later site phase (l ∷ ls) =
      let out = on_later preview site phase l in
      let rest = run_later preview site out.1 ls in
      omega
        (arith, ends-append out.0 rest.0, ends-on_later site phase l, ends-run_later site out.1 ls)

  ends-after_call :
      (monitor : Bool) (site : Site) (result : Result V)
      → Attaches result
      → let out = after_call preview monitor site result in ends out.0 ≡ settled out.1
  unfolding after_call monitor_stream end_ok end_error
  ends-after_call monitor site (threw err) h = refl
  ends-after_call monitor site promise h = refl
  ends-after_call true site (stream v none) h = refl
  ends-after_call true site (stream v (some (n, err))) h = absurd (h v n err refl)
  ends-after_call false site (stream v attached) h = refl
  ends-after_call monitor site (plain v) h = refl

  run_later-finished :
      (site : Site) (ls : List (Later V)) → (run_later preview site finished ls).1 ≡ finished
  unfolding run_later on_later
  run_later-finished site [] = refl
  run_later-finished site (l ∷ ls) = run_later-finished site ls

  settled-promise :
      (site : Site) (ls : List (Later V))
      → settled (run_later preview site pending ls).1 ≡ promise_settles ls
  unfolding run_later on_later
  settled-promise site [] = refl
  settled-promise site (resolved v ∷ ls) = ap settled (run_later-finished site ls)
  settled-promise site (rejected err ∷ ls) = ap settled (run_later-finished site ls)
  settled-promise site (item v ∷ ls) = settled-promise site ls
  settled-promise site (failed err ∷ ls) = settled-promise site ls
  settled-promise site (ended_stream ∷ ls) = settled-promise site ls
  settled-promise site (closed_stream ∷ ls) = settled-promise site ls

  settled-ended :
      (site : Site) (n : ℕ) (ls : List (Later V))
      → settled (run_later preview site (streaming n true 4) ls).1 ≡ 1
  unfolding run_later on_later settle
  settled-ended site n [] = refl
  settled-ended site n (item v ∷ ls) = settled-ended site (suc n) ls
  settled-ended site n (resolved v ∷ ls) = settled-ended site n ls
  settled-ended site n (rejected err ∷ ls) = settled-ended site n ls
  settled-ended site n (failed err ∷ ls) = settled-ended site n ls
  settled-ended site n (ended_stream ∷ ls) = settled-ended site n ls
  settled-ended site n (closed_stream ∷ ls) = settled-ended site n ls

  settled-stream :
      (site : Site) (n : ℕ) (ls : List (Later V))
      → settled (run_later preview site (streaming n false 4) ls).1 ≡ stream_settles ls
  unfolding run_later on_later settle
  settled-stream site n [] = refl
  settled-stream site n (item v ∷ ls) = settled-stream site (suc n) ls
  settled-stream site n (resolved v ∷ ls) = settled-stream site n ls
  settled-stream site n (rejected err ∷ ls) = settled-stream site n ls
  settled-stream site n (failed err ∷ ls) = settled-ended site n ls
  settled-stream site n (ended_stream ∷ ls) = settled-ended site n ls
  settled-stream site n (closed_stream ∷ ls) = settled-ended site n ls

  settled-is_over :
      (monitor : Bool) (site : Site) (result : Result V) (ls : List (Later V))
      → Attaches result
      → settled (run_later preview site (after_call preview monitor site result).1 ls).1
        ≡ is_over monitor result ls
  unfolding after_call monitor_stream
  settled-is_over monitor site (threw err) ls h = ap settled (run_later-finished site ls)
  settled-is_over monitor site promise ls h = settled-promise site ls
  settled-is_over true site (stream v none) ls h = settled-stream site 0 ls
  settled-is_over true site (stream v (some (n, err))) ls h = absurd (h v n err refl)
  settled-is_over false site (stream v attached) ls h = ap settled (run_later-finished site ls)
  settled-is_over monitor site (plain v) ls h = ap settled (run_later-finished site ls)

  -- The events of a call, whose stream, if it returns one, takes the four listeners, have one
  -- `request.end` if the function threw or returned a plain value or a stream that is not
  -- monitored, if its promise was resolved or rejected, or if its monitored stream failed, ended
  -- or closed, in however many of those ways; and none otherwise.
  pub ends-call_trace :
      (monitor : Bool) (site : Site) (args : V) (result : Result V) (ls : List (Later V))
      → Attaches result
      → ends (call_trace preview monitor site args result ls).0 ≡ is_over monitor result ls
  unfolding call_trace start_event
  ends-call_trace monitor site args result ls h =
      let after = after_call preview monitor site result in
      let rest = run_later preview site after.1 ls in
      omega (
        arith,
        ends-append after.0 rest.0,
        ends-after_call monitor site result h,
        ends-run_later site after.1 ls,
        settled-is_over monitor site result ls h,
      )

  -- An event with the ids, the method and the tag of its call.
  abbrev pub IsOf : Site → ClientEvent V → Type 0
  IsOf site e = (e.corr_id ≡ site.corr_id) × (e.method ≡ site.endpoint) × (e.tag ≡ site.tag)

  IsOf-settle :
      (site : Site) (n : ℕ) (ended : Bool) (listeners number : ℕ) (how : Status)
      (err : Option JsString)
      → All (IsOf site) (settle preview site n ended listeners number how err).0
  unfolding settle end_stream
  IsOf-settle site n ended listeners number how err = elim (Bool-cases (ltb number listeners)) [
    | inr e ↦ rw e tt
    | inl e ↦ elim (Bool-cases ended) [
      | inl g ↦ rw (e, g) tt
      | inr g ↦ rw (e, g) ((refl, refl, refl), tt)
    ]
  ]

  IsOf-on_later :
      (site : Site) (phase : Phase) (l : Later V)
      → All (IsOf site) (on_later preview site phase l).0
  unfolding on_later end_ok end_error
  IsOf-on_later site pending (resolved v) = ((refl, refl, refl), tt)
  IsOf-on_later site pending (rejected err) = ((refl, refl, refl), tt)
  IsOf-on_later site (streaming n ended k) (failed err) =
      IsOf-settle site n ended k 1 status_error (some err)
  IsOf-on_later site (streaming n ended k) ended_stream =
      IsOf-settle site n ended k 2 status_closed none
  IsOf-on_later site (streaming n ended k) closed_stream =
      IsOf-settle site n ended k 3 status_closed none
  IsOf-on_later site (streaming n ended k) (item v) = elim (Bool-cases (ltb 0 k)) [
    | inl e ↦ rw e ((refl, refl, refl), tt)
    | inr e ↦ rw e tt
  ]
  IsOf-on_later site (streaming n ended k) (resolved v) = tt
  IsOf-on_later site (streaming n ended k) (rejected err) = tt
  IsOf-on_later site pending (item v) = tt
  IsOf-on_later site pending (failed err) = tt
  IsOf-on_later site pending ended_stream = tt
  IsOf-on_later site pending closed_stream = tt
  IsOf-on_later site finished l = tt

  IsOf-run_later :
      (site : Site) (phase : Phase) (ls : List (Later V))
      → All (IsOf site) (run_later preview site phase ls).0
  unfolding run_later
  IsOf-run_later site phase [] = tt
  IsOf-run_later site phase (l ∷ ls) =
      let out = on_later preview site phase l in
      All-append (IsOf site) out.0 (run_later preview site out.1 ls).0 (IsOf-on_later site phase l)
        (IsOf-run_later site out.1 ls)

  IsOf-after_call :
      (monitor : Bool) (site : Site) (result : Result V)
      → All (IsOf site) (after_call preview monitor site result).0
  unfolding after_call monitor_stream end_ok end_error
  IsOf-after_call monitor site (threw err) = ((refl, refl, refl), tt)
  IsOf-after_call monitor site promise = tt
  IsOf-after_call true site (stream v none) = ((refl, refl, refl), tt)
  IsOf-after_call true site (stream v (some (n, err))) =
      ((refl, refl, refl), ((refl, refl, refl), tt))
  IsOf-after_call false site (stream v attached) = ((refl, refl, refl), tt)
  IsOf-after_call monitor site (plain v) = ((refl, refl, refl), tt)

  -- Every event of a call has the id, the method and the tag of the call.
  pub IsOf-call_trace :
      (monitor : Bool) (site : Site) (args : V) (result : Result V) (ls : List (Later V))
      → All (IsOf site) (call_trace preview monitor site args result ls).0
  unfolding call_trace start_event
  IsOf-call_trace monitor site args result ls =
      let after = after_call preview monitor site result in
      (
        (refl, refl, refl),
        All-append (IsOf site) after.0 (run_later preview site after.1 ls).0
            (IsOf-after_call monitor site result) (IsOf-run_later site after.1 ls),
      )
