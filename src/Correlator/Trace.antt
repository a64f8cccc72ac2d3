-- ===== src/Correlator/Trace.antt =====
-- Sequences of calls to the collector of correlator.ts, and what each call adds to its history.
use bare_network_inspect.Base.{
  ℕ, ◌+◌, ◌==◌, if◌then◌else◌, none, some, List, [], ◌∷◌, ◌++◌, map, length, JsString, same,
  map_get, set_delete,
}
use bare_network_inspect.Base.Int.{sub_ℕ}
use bare_network_inspect.Correlator.{
  Row, req, res, Collector, timeout_row, request, response, sweep,
}
use bare_network_inspect.Correlator.Sweep.{expired}

-- The calls that change a collector.
pub data Op : Type 0 where
  requested : (corr_id method : JsString) (peers : List JsString) (t : ℕ) → Op
  responded : (corr_id peer : JsString) (t : ℕ) → Op
  swept : (now : ℕ) → Op

unfoldable pub step : Collector → Op → Collector
step c (requested corr_id method peers t) = request c corr_id method peers t
step c (responded corr_id peer t) = response c corr_id peer t
step c (swept now) = sweep c now

unfoldable pub run : Collector → List Op → Collector
run c [] = c
run c (o ∷ os) = run (step c o) os

-- The rows that a call emits.
unfoldable pub emitted : Collector → Op → List Row
emitted c (requested corr_id method peers t) = req corr_id method t (length peers) ∷ []
emitted c (responded corr_id peer t) = elim (map_get same corr_id c.pending) [
  | none ↦ []
  | some p ↦ res corr_id peer t (sub_ℕ t p.t) ∷ []
]
emitted c (swept now) = map (timeout_row now) (expired c.timeout_ms now c.pending)

-- A request is opened by a call with a correlation id that is not in flight.
unfoldable pub opened : Collector → Op → ℕ
opened c (requested corr_id method peers t) = elim (map_get same corr_id c.pending) [
  | none ↦ 1
  | some p ↦ 0
]
opened c (responded corr_id peer t) = 0
opened c (swept now) = 0

-- A request is completed by the response of the last peer that it awaits.
unfoldable pub completed : Collector → Op → ℕ
completed c (requested corr_id method peers t) = 0
completed c (responded corr_id peer t) = elim (map_get same corr_id c.pending) [
  | none ↦ 0
  | some p ↦ if length (set_delete same peer p.awaiting) == 0 then 1 else 0
]
completed c (swept now) = 0

unfoldable pub emitted_all : Collector → List Op → List Row
emitted_all c [] = []
emitted_all c (o ∷ os) = emitted c o ++ emitted_all (step c o) os

unfoldable pub opened_all : Collector → List Op → ℕ
opened_all c [] = 0
opened_all c (o ∷ os) = opened c o + opened_all (step c o) os

unfoldable pub completed_all : Collector → List Op → ℕ
completed_all c [] = 0
completed_all c (o ∷ os) = completed c o + completed_all (step c o) os
