-- ===== src/Observe/Reporter.antt =====
-- packages/bare-observe/src/reporters.ts: events to a viewer over a WebSocket that may be down.
-- A frame is `A`. The host's parts are parameters: whether `new WebSocket` returns, and whether the
-- `n`-th `send` does, with JSON.stringify in it. The current socket's state changes between the calls,
-- by `set_ready`; its handlers, and those of a socket that was replaced, are called after that.
pub mod Queue
pub mod Flush
use bare_network_inspect.Base.{
  ℕ, suc, ◌+◌, ◌<◌, Bool, true, false, not, ◌&&◌, ◌||◌, Option, none, some, List, [], ◌∷◌, ◌++◌,
  length, ltb, drop, if◌then◌else◌,
}

-- `readyState`.
pub data ReadyState : Type 0 where
  connecting : ReadyState
  open_state : ReadyState
  closing : ReadyState
  closed_state : ReadyState

-- The current socket if any, what waits, and what the sockets have been given to send, oldest first.
pub record Reporter (A : Type 0) : Type 0 where
  pub ws : Option ReadyState
  pub queue : List A
  pub closed : Bool
  pub sent : List A
  pub sends : ℕ
  pub reconnects : ℕ

abbrev pub new_reporter : {A : Type 0} → Reporter A
new_reporter = record {
  ws = none;
  queue = [];
  closed = false;
  sent = [];
  sends = 0;
  reconnects = 0;
}

unfoldable pub is_live : ReadyState → Bool
is_live connecting = true
is_live open_state = true
is_live s = false

unfoldable pub is_open : Option ReadyState → Bool
is_open (some open_state) = true
is_open s = false

-- Whether `ensure` leaves the socket: `ws && (ws.readyState === 0 || ws.readyState === 1)`.
unfoldable pub is_connected : Option ReadyState → Bool
is_connected none = false
is_connected (some s) = is_live s

-- `ensure`; `has_impl` is whether there is a WebSocket class, `constructs` whether `new` returns.
unfoldable pub ensure : {A : Type 0} → (has_impl constructs : Bool) → Reporter A → Reporter A
ensure has_impl constructs r =
    if r.closed || not has_impl
    then r
    else if is_connected r.ws
    then r
    else record r { ws = if constructs then some connecting else none }

module _ {A : Type 0} (max_queue : ℕ) where
  -- `queue.push(ev); if (queue.length > maxQueue) queue.shift();`
  unfoldable pub push_queue : List A → A → List A
  push_queue q ev = let q' = q ++ (ev ∷ []) in if ltb max_queue (length q') then drop 1 q' else q'

  unfoldable pub enqueue : Reporter A → A → Reporter A
  enqueue r ev = record r { queue = push_queue r.queue ev }

  module _ (sends_ok : ℕ → Bool) where
    -- A `send` that throws puts the event in the queue, also where there is no socket to send on.
    unfoldable pub raw_send : Reporter A → A → Reporter A
    raw_send r ev = elim r.ws [
      | none ↦ enqueue r ev
      | some _ ↦
          if sends_ok r.sends
          then record r { sends = suc r.sends; sent = r.sent ++ (ev ∷ []) }
          else enqueue (record r { sends = suc r.sends }) ev
    ]

    unfoldable pub send_all : Reporter A → List A → Reporter A
    send_all r [] = r
    send_all r (ev ∷ evs) = send_all (raw_send r ev) evs

    -- `ws.onopen`: the announcement of the source, if there is one, and what waits.
    unfoldable pub on_open : Option A → Reporter A → Reporter A
    on_open announce r =
        let r' : Reporter A = elim announce [ none ↦ r | some a ↦ raw_send r a ] in
        send_all (record r' { queue = [] }) r'.queue

    -- One round of the loop of `export`.
    unfoldable pub export_event : Reporter A → A → Reporter A
    export_event r ev = if is_open r.ws then raw_send r ev else enqueue r ev

    unfoldable pub export_events : Reporter A → List A → Reporter A
    export_events r [] = r
    export_events r (ev ∷ evs) = export_events (export_event r ev) evs

    unfoldable pub export : (has_impl constructs : Bool) → Reporter A → List A → Reporter A
    export has_impl constructs r batch =
        if r.closed then r else export_events (ensure has_impl constructs r) batch

-- `ws.onclose`: a reconnect is planned unless the reporter is closed.
unfoldable pub on_close : {A : Type 0} → Reporter A → Reporter A
on_close r = record r {
  ws = none;
  reconnects = if r.closed then r.reconnects else suc r.reconnects;
}

-- `close`.
unfoldable pub close : {A : Type 0} → Reporter A → Reporter A
close r = record r { closed = true; ws = none }

-- The socket's own change of state.
unfoldable pub set_ready : {A : Type 0} → ReadyState → Reporter A → Reporter A
set_ready s r = elim r.ws [ none ↦ r | some _ ↦ record r { ws = some s } ]

-- What may happen to a reporter: a call of the app, or of one of the socket's handlers.
pub data Op (A : Type 0) : Type 0 where
  exported : (has_impl constructs : Bool) → (batch : List A) → Op A
  ready : ReadyState → Op A
  opened : (announce : Option A) → Op A
  lost : Op A
  ended : Op A

module _ {A : Type 0} (max_queue : ℕ) (sends_ok : ℕ → Bool) where
  unfoldable pub step : Reporter A → Op A → Reporter A
  step r (exported has_impl constructs batch) =
      export max_queue sends_ok has_impl constructs r batch
  step r (ready s) = set_ready s r
  step r (opened announce) = on_open max_queue sends_ok announce r
  step r lost = on_close r
  step r ended = close r

  unfoldable pub run : Reporter A → List (Op A) → Reporter A
  run r [] = r
  run r (op ∷ ops) = run (step r op) ops
