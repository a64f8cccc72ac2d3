-- ===== src/Adapter.antt =====
-- What the adapters of packages/bare-probe/adapters share: the data on a wire, the hint of an envelope,
-- the event that a probe emits, and a call that returns or throws.
-- The host's parts are parameters: the `n`-th reading of `now`, `JSON.parse`, an error's message. An
-- exception of a sink is swallowed by `emitSafe`, so that an emitted event is one handed to the sink.
pub mod Run
pub mod DataChannel
pub mod Stream
pub mod Socket
pub mod PeerConnection
pub mod Stats
pub mod Transparent
mod Tests
use bare_network_inspect.Base.{
  ℕ, zero, suc, ◌+◌, ◌⊎◌, inl, inr, Bool, true, false, Option, none, some, List, [], ◌∷◌, ◌++◌,
  length, if◌then◌else◌, ◌&&◌, JsString, ascii,
}
use bare_network_inspect.Base.Int.{ℤ}
use bare_network_inspect.Utf8.{utf8_encode}
use bare_network_inspect.Registry.{is_same}
use bare_network_inspect.Sink.{L2EventType, L2Event}
use bare_network_inspect.Cbor.{Cbor, Fields, int, float, text, object}
use bare_network_inspect.Envelope.Object.{get_field}

-- `WireData`, and whatever else a handler may be given.
pub data WireData : Type 0 where
  string : JsString → WireData
  uint8_array : List ℕ → WireData
  other_view : List ℕ → WireData
  array_buffer : List ℕ → WireData
  blob : (size : ℕ) → WireData
  other : WireData

unfoldable pub byte_length : WireData → ℕ
byte_length (string s) = length (utf8_encode s)
byte_length (uint8_array bs) = length bs
byte_length (other_view bs) = length bs
byte_length (array_buffer bs) = length bs
byte_length (blob size) = size
byte_length other = 0

pub data Call {ℓ} (E : Type 0) (A : Type ℓ) : Type ℓ where
  returned : A → Call E A
  threw : E → Call E A

-- What follows a call that returns, and one that throws.
abbrev pub outcome {ℓ κ μ} :
    {E : Type 0} {T : Type ℓ} {A : Type κ} {B : Type μ}
    → T × Call E A
    → (T → A → B)
    → (T → E → B)
    → B
outcome (s, returned a) on_value on_throw = on_value s a
outcome (s, threw e) on_value on_throw = on_throw s e

pub record EnvelopeHint (F : Type 0) : Type 0 where
  pub msg_id : Option JsString
  pub corr_id : Option JsString
  pub method : Option JsString
  pub kind : Option JsString
  pub ts : Option (ℤ ⊎ F)
  pub hlc : Option JsString

module _ {F : Type 0} where
  -- `typeof v === 'string' ? v : undefined`, and the same of a number.
  unfoldable pub if_string : Option (Cbor F) → Option JsString
  if_string (some (text s)) = some s
  if_string v = none

  unfoldable pub if_number : Option (Cbor F) → Option (ℤ ⊎ F)
  if_number (some (int n)) = some (inl n)
  if_number (some (float x)) = some (inr x)
  if_number v = none

  -- Whether both ids of a hint are missing.
  unfoldable pub lacks_ids : EnvelopeHint F → Bool
  lacks_ids h = elim h.corr_id [
    | some c ↦ false
    | none ↦ elim h.msg_id [ some i ↦ false | none ↦ true ]
  ]

  unfoldable pub hint_of : Fields F → EnvelopeHint F
  hint_of fs = record {
    msg_id = if_string (get_field fs (ascii "msgId"));
    corr_id = if_string (get_field fs (ascii "corrId"));
    method = if_string (get_field fs (ascii "method"));
    kind = if_string (get_field fs (ascii "kind"));
    ts = if_number (get_field fs (ascii "ts"));
    hlc = if_string (get_field fs (ascii "hlc"));
  }

  -- `bestEffortDecode` of what `JSON.parse` returned, or did not: an array has none of the fields.
  unfoldable pub read_hint : Option (Cbor F) → Option (EnvelopeHint F)
  read_hint (some (object fs)) = if lacks_ids (hint_of fs) then none else some (hint_of fs)
  read_hint v = none

  unfoldable pub best_effort_decode :
      (JsString → Option (Cbor F)) → WireData → Option (EnvelopeHint F)
  best_effort_decode parse (string s) = read_hint (parse s)
  best_effort_decode parse payload = none

-- The event of a probe, with the fields of all adapters.
pub record ProbeEvent (F : Type 0) : Type 0 where
  pub event_type : L2EventType
  pub peer_id : JsString
  pub t : ℕ
  pub transport : Option JsString
  pub bytes : Option ℕ
  pub buffered_amount : Option ℕ
  pub msg_id : Option JsString
  pub corr_id : Option JsString
  pub method : Option JsString
  pub sender_ts : Option (ℤ ⊎ F)
  pub hlc : Option JsString
  pub error : Option JsString
  pub event : Option JsString
  pub url : Option JsString
  pub code : Option ℕ
  pub reason : Option JsString

-- An event without any of the optional fields.
abbrev pub bare_event : {F : Type 0} → L2EventType → JsString → ℕ → ProbeEvent F
bare_event event_type peer_id t = record {
  event_type = event_type;
  peer_id = peer_id;
  t = t;
  transport = none;
  bytes = none;
  buffered_amount = none;
  msg_id = none;
  corr_id = none;
  method = none;
  sender_ts = none;
  hlc = none;
  error = none;
  event = none;
  url = none;
  code = none;
  reason = none;
}

-- The fields of an event that the sink reads.
unfoldable pub sink_event : {F : Type 0} → ProbeEvent F → L2Event
sink_event e = record {
  event_type = e.event_type;
  t = e.t;
  peer_id = some e.peer_id;
  corr_id = e.corr_id;
  method = e.method;
}

-- An instrumented object: the transport below, whether its send is the probe's, whether the probe's
-- listeners are on it, what the probe has emitted, and how often it has read the time.
pub record Tap (F S : Type 0) : Type 0 where
  pub channel : S
  pub hooked : Bool
  pub listening : Bool
  pub emitted : List (ProbeEvent F)
  pub readings : ℕ

module _ {E F S : Type 0} (now : ℕ → Call E ℕ) where
  -- `emitSafe(sink, {..., t: now()})`: the reading of the time may throw, the sink may not.
  unfoldable pub emit_at : (ℕ → ProbeEvent F) → Tap F S → Tap F S × Call E (Unit {0})
  emit_at event s =
      let s' : Tap F S = record s { readings = suc s.readings } in
      elim (now s.readings) [
        | returned t ↦ (record s' { emitted = s.emitted ++ (event t ∷ []) }, returned tt)
        | threw e ↦ (s', threw e)
      ]

  -- The same where a `catch` is around it.
  unfoldable pub emit_or_skip : (ℕ → ProbeEvent F) → Tap F S → Tap F S
  emit_or_skip event s = (emit_at event s).0

  -- A `catch (err)` that emits and throws `err` again.
  unfoldable pub emit_and_throw {ℓ} :
      {A : Type ℓ} → (ℕ → ProbeEvent F) → E → Tap F S → Tap F S × Call E A
  emit_and_throw event err s =
      outcome (emit_at event s) (λ s' u. (s', threw err)) (λ s' e. (s', threw e))

-- `env?.kind === kind ? this : that`.
unfoldable pub by_kind :
    {F : Type 0} → Option (EnvelopeHint F) → JsString → L2EventType → L2EventType → L2EventType
by_kind none kind this that = that
by_kind (some h) kind this that = elim h.kind [
  | none ↦ that
  | some k ↦ if is_same k kind then this else that
]

-- `env?.field`.
unfoldable pub of_hint {ℓ} :
    {F : Type 0} {A : Type ℓ} → (EnvelopeHint F → Option A) → Option (EnvelopeHint F) → Option A
of_hint field none = none
of_hint field (some h) = field h

-- `env = decodeEnvelope(data)` in a `try` whose `catch` does nothing.
unfoldable pub caught : {E F : Type 0} → Call E (Option (EnvelopeHint F)) → Option (EnvelopeHint F)
caught (returned h) = h
caught (threw e) = none
