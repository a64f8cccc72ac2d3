-- ===== src/Observe/Exporter.antt =====
-- packages/bare-probe/exporters/hyperswarm.ts: events to frames on the hub's stream, and of
-- packages/bare-observe/src/observe.ts the exporter that waits for a stream.
-- The events are of any type. `encode` and `write` of the stream are parameters that return or throw;
-- `write` is told how many events there were before it.
pub mod Delivery
use bare_network_inspect.Base.{ℕ, ◌+◌, Option, none, some, List, [], ◌∷◌, ◌++◌, length}
use bare_network_inspect.Framing.{encode_frame}
use bare_network_inspect.Adapter.{Call, returned, threw}

-- What the hub's stream was given, and what `onError` was told, oldest first.
pub record Stream (E : Type 0) : Type 0 where
  pub written : List (List ℕ)
  pub errors : List E

abbrev pub new_stream : {E : Type 0} → Stream E
new_stream = record { written = []; errors = [] }

module _ {E A : Type 0} (encode : A → Call E (List ℕ))
    (write : ℕ → List ℕ → Call E (Unit {0})) where
  unfoldable pub write_frame : Stream E → List ℕ → Stream E
  write_frame s frame = elim (write (length s.written + length s.errors) frame) [
    | returned _ ↦ record s { written = s.written ++ (frame ∷ []) }
    | threw err ↦ record s { errors = s.errors ++ (err ∷ []) }
  ]

  -- One round of the loop of `export`.
  unfoldable pub export_event : Stream E → A → Stream E
  export_event s event = elim (encode event) [
    | returned bytes ↦ write_frame s (encode_frame bytes)
    | threw err ↦ record s { errors = s.errors ++ (err ∷ []) }
  ]

  unfoldable pub export_batch : Stream E → List A → Stream E
  export_batch s [] = s
  export_batch s (event ∷ batch) = export_batch (export_event s event) batch

  unfoldable pub export_batches : Stream E → List (List A) → Stream E
  export_batches s [] = s
  export_batches s (batch ∷ batches) = export_batches (export_batch s batch) batches

-- `createDeferredExporter`: the live stream, or none, and the batches that wait. A second stream
-- takes the place of the first; what the first was given is no longer part of the state.
pub record Deferred (E A : Type 0) : Type 0 where
  pub live : Option (Stream E)
  pub buffered : List (List A)

module _ {E A : Type 0} where
  abbrev pub new_deferred : Deferred E A
  new_deferred = record { live = none; buffered = [] }

  unfoldable pub pending_batches : Deferred E A → ℕ
  pending_batches d = length d.buffered

module _ {E A : Type 0} (encode : A → Call E (List ℕ))
    (write : ℕ → List ℕ → Call E (Unit {0})) where
  unfoldable pub export_deferred : Deferred E A → List A → Deferred E A
  export_deferred d batch = elim d.live [
    | none ↦ record d { buffered = d.buffered ++ (batch ∷ []) }
    | some s ↦ record d { live = some (export_batch encode write s batch) }
  ]

  unfoldable pub attach : Deferred E A → Stream E → Deferred E A
  attach d s = record { live = some (export_batches encode write s d.buffered); buffered = [] }
