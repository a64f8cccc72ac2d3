-- ===== src/Correlator/Sweep.antt =====
-- What `sweep` of correlator.ts does to the whole map of pending requests.
use bare_network_inspect.Base.{
  inl, inr, Bool-cases, ℕ, ◌+◌, ◌≡◌, refl, none, some, List, [], ◌∷◌, ◌++◌, map, length, JsString,
  same, map_get, Distinct, Distinct-delete, map_delete_middle, append_assoc, arith, if◌then◌else◌,
  true,
}
use bare_network_inspect.RingBuffer
use bare_network_inspect.Correlator.{
  PendingRequest, Collector, overdue, timeout_row, mark_settled, sweep_entry, sweep_entries, sweep,
}

abbrev pub Entries : Type 0
Entries = List (JsString × PendingRequest)

-- The entries that are overdue at `now`, and those that are not.
unfoldable pub expired : ℕ → ℕ → Entries → Entries
expired timeout_ms now [] = []
expired timeout_ms now ((k, p) ∷ m) =
    let rest = expired timeout_ms now m in if overdue timeout_ms now p then (k, p) ∷ rest else rest

unfoldable pub survivors : ℕ → ℕ → Entries → Entries
survivors timeout_ms now [] = []
survivors timeout_ms now ((k, p) ∷ m) =
    let rest = survivors timeout_ms now m in
    if overdue timeout_ms now p then rest else (k, p) ∷ rest

-- What the loop over `es` leaves of the collector `c`, all but `pending` and `settled`.
pub record Swept (c c' : Collector) (es : Entries) (now : ℕ) : Type 0 where
  pub events :
      c'.events ≡ RingBuffer.push_all c.events (map (timeout_row now) (expired c.timeout_ms now es))
  pub counted : c'.timed_out ≡ c.timed_out + length (expired c.timeout_ms now es)
  pub max_pending : c'.max_pending ≡ c.max_pending
  pub timeout_ms : c'.timeout_ms ≡ c.timeout_ms
  pub max_settled : c'.max_settled ≡ c.max_settled
  pub pending_dropped : c'.pending_dropped ≡ c.pending_dropped
  pub late : c'.late_after_timeout ≡ c.late_after_timeout

timeout_ms-sweep_entry :
    (now : ℕ) (c : Collector) (e : JsString × PendingRequest)
    → (sweep_entry now c e).timeout_ms ≡ c.timeout_ms
unfolding sweep_entry mark_settled
timeout_ms-sweep_entry now c (k, p) = ground arith

pub sweep_entries-Swept :
    (now : ℕ) (es : Entries) (c : Collector) → Swept c (sweep_entries now c es) es now
unfolding sweep_entries expired sweep_entry mark_settled RingBuffer.push_all
sweep_entries-Swept now [] c = ground arith
sweep_entries-Swept now ((k, p) ∷ es) c =
    ground (arith, sweep_entries-Swept now es (sweep_entry now c (k, p)))

pub pending-sweep_entries :
    (now : ℕ) (es front : Entries) (c : Collector)
    → c.pending ≡ front ++ es
    → Distinct same c.pending
    → (sweep_entries now c es).pending ≡ front ++ survivors c.timeout_ms now es
unfolding sweep_entries survivors sweep_entry mark_settled
pending-sweep_entries now [] front c e d = e
pending-sweep_entries now ((k, p) ∷ es) front c e d = ground (
  arith,
  map_delete_middle same k p front es (rw e at d),
  Distinct-delete same k c.pending d,
  pending-sweep_entries now es front (sweep_entry now c (k, p)),
  pending-sweep_entries now es (front ++ ((k, p) ∷ [])) (sweep_entry now c (k, p)),
  append_assoc front ((k, p) ∷ []) es,
  append_assoc front ((k, p) ∷ []) (survivors c.timeout_ms now es),
)

-- `sweep` keeps exactly the requests that are not overdue, in their order.
pub pending-sweep :
    (c : Collector) (now : ℕ)
    → Distinct same c.pending
    → (sweep c now).pending ≡ survivors c.timeout_ms now c.pending
unfolding sweep
pending-sweep c now d = pending-sweep_entries now c.pending [] c refl d

pub length-survivors :
    (timeout_ms now : ℕ) (m : Entries)
    → length (survivors timeout_ms now m) + length (expired timeout_ms now m) ≡ length m
unfolding survivors expired
length-survivors timeout_ms now [] = omega arith
length-survivors timeout_ms now ((k, p) ∷ m) = ground (arith, length-survivors timeout_ms now m)

pub map_get-survivors :
    (timeout_ms now : ℕ) (k : JsString) (m : Entries)
    → map_get same k m ≡ none
    → map_get same k (survivors timeout_ms now m) ≡ none
unfolding survivors map_get
map_get-survivors timeout_ms now k [] h = refl
map_get-survivors timeout_ms now k ((j, p) ∷ m) h =
    ground (arith, map_get-survivors timeout_ms now k m)

pub Distinct-survivors :
    (timeout_ms now : ℕ) (m : Entries)
    → Distinct same m
    → Distinct same (survivors timeout_ms now m)
unfolding survivors
Distinct-survivors timeout_ms now [] d = d
Distinct-survivors timeout_ms now ((k, p) ∷ m) d =
    ground (arith, Distinct-survivors timeout_ms now m, map_get-survivors timeout_ms now k m)

-- A request that was overdue is not among the survivors.
pub map_get-survivors-overdue :
    (timeout_ms now : ℕ) (k : JsString) (p : PendingRequest) (m : Entries)
    → Distinct same m
    → map_get same k m ≡ some p
    → overdue timeout_ms now p ≡ true
    → map_get same k (survivors timeout_ms now m) ≡ none
unfolding survivors map_get
map_get-survivors-overdue timeout_ms now k p [] d h o = cc
map_get-survivors-overdue timeout_ms now k p ((j, q) ∷ m) d h o =
    ground
      (arith, map_get-survivors-overdue timeout_ms now k p m, map_get-survivors timeout_ms now k m)

-- The rows that `sweep` emits are the timeout rows of the overdue requests, in the map's order.
pub sweep-Swept : (c : Collector) (now : ℕ) → Swept c (sweep c now) c.pending now
unfolding sweep
sweep-Swept c now = sweep_entries-Swept now c.pending c

-- A pending request that is overdue is among the expired ones.
pub expired_hit :
    (timeout_ms now : ℕ) (k : JsString) (p : PendingRequest) (m : Entries)
    → map_get same k m ≡ some p
    → overdue timeout_ms now p ≡ true
    → (front back : Entries) × (expired timeout_ms now m ≡ front ++ ((k, p) ∷ back))
unfolding expired map_get
expired_hit timeout_ms now k p [] e o = cc
expired_hit timeout_ms now k p ((j, q) ∷ m) e o = elim (same j k) [
  | yes i ↦ ([], expired timeout_ms now m, ground arith)
  | no i ↦
      let (front, back, h) = expired_hit timeout_ms now k p m (ground arith) o in
      elim (Bool-cases (overdue timeout_ms now q)) [
        | inl late ↦ ((j, q) ∷ front, back, ground arith)
        | inr early ↦ (front, back, ground arith)
      ]
]
