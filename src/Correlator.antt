-- ===== src/Correlator.antt =====
-- packages/bare-probe/core/correlator.ts: requests, their responses, and the timeout sweep.
-- Times are whole numbers of the collector's clock; a round-trip time may be negative.
pub mod Trace
pub mod Bounds
pub mod Sweep
pub mod Account
pub mod Awaited
pub mod Silent
mod Tests
use bare_network_inspect.Base.{
  ℕ, ◌+◌, Bool, Option, none, some, List, [], ◌∷◌, ◌++◌, length, ltb, ◌==◌, if◌then◌else◌, JsString,
  same, map_get, map_set, map_delete, set_has, set_add, set_delete,
}
use bare_network_inspect.Base.Int.{ℤ, sub_ℕ}
use bare_network_inspect.RingBuffer.{RingBuffer}
use bare_network_inspect.RingBuffer

-- `CollectorRow`, by its `kind`, each with the fields that the code gives it.
pub data Row : Type 0 where
  req : (corr_id method : JsString) (t fanout : ℕ) → Row
  res : (corr_id peer : JsString) (t : ℕ) (rtt : ℤ) → Row
  timeout : (corr_id method : JsString) (t : ℕ) (unanswered : List JsString) (partial : ℕ) → Row

pub record PendingRequest : Type 0 where
  pub method : JsString
  pub t : ℕ
  pub awaiting : List JsString
  pub responses : List (JsString × ℤ)

pub record Collector : Type 0 where
  pub events : RingBuffer Row
  pub pending : List (JsString × PendingRequest)
  pub max_pending : ℕ
  pub timeout_ms : ℕ
  pub max_settled : ℕ
  pub pending_dropped : ℕ
  pub timed_out : ℕ
  pub late_after_timeout : ℕ
  pub settled : List JsString

pub record CollectorOptions : Type 0 where
  pub max_events : ℕ
  pub max_pending : ℕ
  pub timeout_ms : ℕ
  pub max_settled : ℕ

abbrev pub defaults : CollectorOptions
defaults = record { max_events = 1000; max_pending = 500; timeout_ms = 5000; max_settled = 4096 }

unfoldable pub with_events : CollectorOptions → RingBuffer Row → Collector
with_events o events = record {
  events = events;
  pending = [];
  max_pending = o.max_pending;
  timeout_ms = o.timeout_ms;
  max_settled = o.max_settled;
  pending_dropped = 0;
  timed_out = 0;
  late_after_timeout = 0;
  settled = [];
}

-- The constructor; `none` is the RangeError of the ring's.
unfoldable pub new : CollectorOptions → Option Collector
unfolding with_events
new o = elim (RingBuffer.new {A = Row} o.max_events) [
  | none ↦ none
  | some events ↦ some (with_events o events)
]

-- The getter `dropped`.
unfoldable pub dropped : Collector → ℕ
dropped c = c.events.dropped + c.pending_dropped

-- The `while` loop of `markSettled`: the oldest ids go until the set fits.
unfoldable pub trim : ℕ → List JsString → List JsString
trim bound [] = []
trim bound (x ∷ s) = if ltb bound (length (x ∷ s)) then trim bound s else x ∷ s

unfoldable pub mark_settled : Collector → JsString → Collector
mark_settled c corr_id = record c { settled = trim c.max_settled (set_add same corr_id c.settled) }

-- `new Set(peers)`.
unfoldable pub set_of : List JsString → List JsString → List JsString
set_of s [] = s
set_of s (p ∷ ps) = set_of (set_add same p s) ps

-- `map.delete(map.keys().next().value)`.
unfoldable pub delete_oldest : List (JsString × PendingRequest) → List (JsString × PendingRequest)
delete_oldest [] = []
delete_oldest ((k, p) ∷ m) = map_delete same k ((k, p) ∷ m)

unfoldable pub request : Collector → JsString → JsString → List JsString → ℕ → Collector
request c corr_id method peers t =
    let entry : PendingRequest = record {
      method = method;
      t = t;
      awaiting = set_of [] peers;
      responses = [];
    } in
    let pending = map_set same corr_id entry c.pending in
    let over = ltb c.max_pending (length pending) in
    record c {
      pending = if over then delete_oldest pending else pending;
      pending_dropped = if over then c.pending_dropped + 1 else c.pending_dropped;
      events = RingBuffer.push c.events (req corr_id method t (length peers));
    }

-- The part of `response` behind the early return, for the live request `p`.
unfoldable pub answer : Collector → JsString → PendingRequest → JsString → ℕ → Collector
answer c corr_id p peer t =
    let rtt = sub_ℕ t p.t in
    let p' : PendingRequest = record p {
      awaiting = set_delete same peer p.awaiting;
      responses = p.responses ++ ((peer, rtt) ∷ []);
    } in
    let c' : Collector = record c {
      pending = map_set same corr_id p' c.pending;
      events = RingBuffer.push c.events (res corr_id peer t rtt);
    } in
    if length p'.awaiting == 0
    then mark_settled (record c' { pending = map_delete same corr_id c'.pending }) corr_id
    else c'

unfoldable pub response : Collector → JsString → JsString → ℕ → Collector
response c corr_id peer t = elim (map_get same corr_id c.pending) [
  | none ↦
      if set_has same corr_id c.settled
      then record c { late_after_timeout = c.late_after_timeout + 1 }
      else c
  | some p ↦ answer c corr_id p peer t
]

-- `now - p.t > timeoutMs`.
abbrev pub overdue : ℕ → ℕ → PendingRequest → Bool
overdue timeout_ms now p = ltb (p.t + timeout_ms) now

abbrev pub timeout_row : ℕ → JsString × PendingRequest → Row
timeout_row now (corr_id, p) = timeout corr_id p.method now p.awaiting (length p.responses)

-- The body of the loop of `sweep`, for one entry of the map.
unfoldable pub sweep_entry : ℕ → Collector → JsString × PendingRequest → Collector
unfolding mark_settled
sweep_entry now c (corr_id, p) =
    if overdue c.timeout_ms now p
    then record (mark_settled c corr_id) {
      events = RingBuffer.push c.events (timeout_row now (corr_id, p));
      pending = map_delete same corr_id c.pending;
      timed_out = c.timed_out + 1;
    }
    else c

-- The loop runs over the entries that the map had at its start: it deletes only the entry that
-- it is at, and adds none.
unfoldable pub sweep_entries : ℕ → Collector → List (JsString × PendingRequest) → Collector
sweep_entries now c [] = c
sweep_entries now c (e ∷ es) = sweep_entries now (sweep_entry now c e) es

unfoldable pub sweep : Collector → ℕ → Collector
sweep c now = sweep_entries now c c.pending
