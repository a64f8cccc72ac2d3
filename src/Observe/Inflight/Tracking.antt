-- ===== src/Observe/Inflight/Tracking.antt =====
-- The tracker of packages/bare-observe/src/observe.ts holds the calls that have started and not settled.
use bare_network_inspect.Base.{
  ℕ, ◌+◌, ◌-◌, ◌≤◌, ◌<◌, ◌≡◌, refl, arith, Option, none, some, inl, inr, List, [], ◌∷◌, length, ite,
  JsString, same, map_get, map_set, map_get-set, map_get-delete, length-map_set, length-map_delete,
  length-map_delete_head, Option-cases,
}
use bare_network_inspect.Sink.{present}
use bare_network_inspect.Observe.Inflight.{
  InflightCall, ReportEvent, ReportType, request_start, stream_open, stream_data, request_end,
  other, drop_oldest, bounded_set, inflight_max, track, report, report_all,
}

drop_oldest-length : {V : Type 0} (m : List (JsString × V)) → length (drop_oldest m) ≤ length m - 1
unfolding drop_oldest
drop_oldest-length [] = omega arith
drop_oldest-length ((k, v) ∷ m) = omega (arith, length-map_delete_head same k v m)

-- A bounded map never holds more entries than its limit.
pub bounded_set-length :
    {V : Type 0} (limit : ℕ) (k : JsString) (v : V) (m : List (JsString × V))
    → length m ≤ limit
    → length (bounded_set limit k v m) ≤ limit
unfolding bounded_set
bounded_set-length limit k v m h =
    ground (arith, length-map_set same k v m, drop_oldest-length (map_set same k v m))

bounded_set-fits :
    {V : Type 0} (limit : ℕ) (k : JsString) (v : V) (m : List (JsString × V))
    → length m < limit
    → bounded_set limit k v m ≡ map_set same k v m
unfolding bounded_set
bounded_set-fits limit k v m h = ground (arith, length-map_set same k v m)

track-length :
    (calls : List (JsString × InflightCall)) (c : JsString) (e : ReportEvent) (kind : ReportType)
    → length calls ≤ inflight_max
    → length (track calls c e kind) ≤ inflight_max
unfolding track
track-length calls c e request_start h =
    bounded_set-length inflight_max c (record { method = e.method; corr_id = c; t = e.t }) calls h
track-length calls c e stream_open h = omega (arith, length-map_delete same c calls)
track-length calls c e request_end h = omega (arith, length-map_delete same c calls)
track-length calls c e stream_data h = h
track-length calls c e other h = h

-- The tracker never holds more than 1000 calls.
pub report_all-length :
    (calls : List (JsString × InflightCall)) (es : List ReportEvent)
    → length calls ≤ inflight_max
    → length (report_all calls es) ≤ inflight_max
unfolding report_all report
report_all-length calls [] h = h
report_all-length calls (e ∷ es) h = elim (Option-cases (present e.corr_id)) [
  | inl q ↦ ground (arith, report_all-length calls es h)
  | inr (c, q) ↦ ground (
    arith,
    report_all-length (track calls c e e.report_type) es (track-length calls c e e.report_type h),
  )
]

-- What the last event that says so tells of the call `c`: started with its method and time, or not in
-- flight.
abbrev pub told_by : JsString → ReportEvent → ReportType → Option InflightCall → Option InflightCall
told_by c e request_start before = some (record { method = e.method; corr_id = c; t = e.t })
told_by c e stream_open before = none
told_by c e request_end before = none
told_by c e stream_data before = before
told_by c e other before = before

abbrev pub about :
    JsString → ReportEvent → Option JsString → Option InflightCall → Option InflightCall
about c e none before = before
about c e (some j) before = ite (same j c) (told_by c e e.report_type before) before

abbrev pub last_told : JsString → Option InflightCall → List ReportEvent → Option InflightCall
last_told c before [] = before
last_told c before (e ∷ es) = last_told c (about c e (present e.corr_id) before) es

map_get-track :
    (calls : List (JsString × InflightCall)) (j c : JsString) (e : ReportEvent) (kind : ReportType)
    → length calls < inflight_max
    → map_get same c (track calls j e kind)
      ≡ ite (same j c) (told_by c e kind (map_get same c calls)) (map_get same c calls)
unfolding track
map_get-track calls j c e request_start h =
    let call : InflightCall = record { method = e.method; corr_id = j; t = e.t } in
    ground (arith, bounded_set-fits inflight_max j call calls h, map_get-set same j c call calls)
map_get-track calls j c e stream_open h = ground (arith, map_get-delete same j c calls)
map_get-track calls j c e request_end h = ground (arith, map_get-delete same j c calls)
map_get-track calls j c e stream_data h = ground arith
map_get-track calls j c e other h = ground arith

abbrev pub is_start : ReportType → ℕ
is_start request_start = 1
is_start stream_open = 0
is_start stream_data = 0
is_start request_end = 0
is_start other = 0

-- The number of calls that some events start.
abbrev pub starts : List ReportEvent → ℕ
starts [] = 0
starts (e ∷ es) = is_start e.report_type + starts es

track-starts :
    (calls : List (JsString × InflightCall)) (c : JsString) (e : ReportEvent) (kind : ReportType)
    → length calls < inflight_max
    → length (track calls c e kind) ≤ length calls + is_start kind
unfolding track
track-starts calls c e request_start h =
    let call : InflightCall = record { method = e.method; corr_id = c; t = e.t } in
    ground (arith, bounded_set-fits inflight_max c call calls h, length-map_set same c call calls)
track-starts calls c e stream_open h = omega (arith, length-map_delete same c calls)
track-starts calls c e request_end h = omega (arith, length-map_delete same c calls)
track-starts calls c e stream_data h = omega arith
track-starts calls c e other h = omega arith

report_skip :
    (calls : List (JsString × InflightCall)) (e : ReportEvent)
    → present e.corr_id ≡ none
    → report calls e ≡ calls
unfolding report
report_skip calls e q = ground arith

report_tracked :
    (calls : List (JsString × InflightCall)) (e : ReportEvent) (c : JsString)
    → present e.corr_id ≡ some c
    → report calls e ≡ track calls c e e.report_type
unfolding report
report_tracked calls e c q = ground arith

map_get-report_from :
    (calls : List (JsString × InflightCall)) (es : List ReportEvent) (c : JsString)
    → length calls + starts es < inflight_max
    → map_get same c (report_all calls es) ≡ last_told c (map_get same c calls) es
unfolding report_all
map_get-report_from calls [] c h = refl
map_get-report_from calls (e ∷ es) c h = elim (Option-cases (present e.corr_id)) [
  | inl q ↦ ground (arith, report_skip calls e q, map_get-report_from calls es c (omega arith))
  | inr (j, q) ↦
      let small = track-starts calls j e e.report_type (omega arith) in
      rw (report_tracked calls e j q, q, ← map_get-track calls j c e e.report_type (omega arith))
        (map_get-report_from (track calls j e e.report_type) es c (omega (arith, small)))
]

-- While fewer than 1000 calls have started, a call is in flight, with the method and the time of its
-- start, exactly if the last event that opens a stream, starts or ends it is a start.
pub map_get-report_all :
    (es : List ReportEvent) (c : JsString)
    → starts es < inflight_max
    → map_get same c (report_all [] es) ≡ last_told c none es
unfolding map_get
map_get-report_all es c h = map_get-report_from [] es c (omega arith)
