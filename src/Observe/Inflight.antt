-- ===== src/Observe/Inflight.antt =====
-- packages/bare-observe/src/observe.ts: the calls that are in flight, and the log of calls for a replay.
-- An event has the fields that the tracker reads; `corr_id` is none where it is no string. The time of an
-- event without a `t` is the clock's, which is put in by the caller.
pub mod Tracking
use bare_network_inspect.Base.{
  ℕ, ◌<◌, Option, none, some, List, [], ◌∷◌, length, ltb, ◌==◌, if◌then◌else◌, JsString, same,
  map_set, map_delete,
}
use bare_network_inspect.Sink.{present}

-- The events that `report` tells apart; `other` is any type else.
pub data ReportType : Type 0 where
  request_start : ReportType
  stream_open : ReportType
  stream_data : ReportType
  request_end : ReportType
  other : ReportType

pub record InflightCall : Type 0 where
  pub method : JsString
  pub corr_id : JsString
  pub t : ℕ

pub record ReportEvent : Type 0 where
  pub report_type : ReportType
  pub corr_id : Option JsString
  pub method : JsString
  pub t : ℕ

-- `map.keys().next().value`, deleted.
unfoldable pub drop_oldest : {V : Type 0} → List (JsString × V) → List (JsString × V)
drop_oldest [] = []
drop_oldest ((k, v) ∷ m) = map_delete same k ((k, v) ∷ m)

-- `map.set(key, value)`, and the oldest entry deleted if there are more than `limit`.
unfoldable pub bounded_set :
    {V : Type 0} → ℕ → JsString → V → List (JsString × V) → List (JsString × V)
bounded_set limit k v m =
    let m' = map_set same k v m in if ltb limit (length m') then drop_oldest m' else m'

abbrev pub inflight_max : ℕ
inflight_max = 1000

-- The tracker's part of `report` behind its test of the id.
unfoldable pub track :
    List (JsString × InflightCall)
    → JsString
    → ReportEvent
    → ReportType
    → List (JsString × InflightCall)
track calls c e request_start =
    bounded_set inflight_max c (record { method = e.method; corr_id = c; t = e.t }) calls
track calls c e stream_open = map_delete same c calls
track calls c e request_end = map_delete same c calls
track calls c e stream_data = calls
track calls c e other = calls

unfoldable pub report :
    List (JsString × InflightCall) → ReportEvent → List (JsString × InflightCall)
report calls e = elim (present e.corr_id) [ none ↦ calls | some c ↦ track calls c e e.report_type ]

unfoldable pub report_all :
    List (JsString × InflightCall) → List ReportEvent → List (JsString × InflightCall)
report_all calls [] = calls
report_all calls (e ∷ es) = report_all (report calls e) es

-- `handle.inflight()`.
unfoldable pub inflight : List (JsString × InflightCall) → List InflightCall
inflight [] = []
inflight ((c, call) ∷ calls) = call ∷ inflight calls
