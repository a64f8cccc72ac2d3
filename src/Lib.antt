-- ===== src/Lib.antt =====
-- bare-network-inspect observes peer-to-peer RPC traffic. Adapters of a transport emit lifecycle
-- events; a sink hands those with a correlation id to a collector, which matches responses to requests
-- in bounded memory, and a flusher ships its rows in batches. On the wire a message is an envelope,
-- encoded as JSON or CBOR and cut into frames on a byte stream; hybrid logical clocks order messages.
--
-- Base: the shared vocabulary. JavaScript strings are lists of UTF-16 code units, `Map` and `Set` are
-- lists of entries in insertion order with one entry for each key (Base/Dict), integers of either sign
-- stand in Base/Int. Numbers are natural numbers wherever the code's are whole and not negative.
--
-- RingBuffer: packages/bare-probe/core/ring-buffer.ts, class RingBuffer: constructor `new`, `push`,
-- `to_array`, `drain`, `clear`, `find`. A slot of the backing array is an Option. Window and Refine
-- relate the array to the history of pushes.
-- Correlator: packages/bare-probe/core/correlator.ts, class Collector over that ring: `request`,
-- `response` (its live part is `answer`), `sweep` (`sweep_entry` for each entry) and `mark_settled`.
-- Awaited has the peers that a request awaits; Trace has sequences of calls, and the rows and requests
-- that each call accounts for.
-- Sink: packages/bare-probe/core/sink.ts, `emit` by the event types of
-- packages/bare-probe/src/sink.ts.
-- Flush: packages/bare-probe/core/flush.ts, class BatchFlusher: `add`, `flush_now`, `start`, `stop`.
-- The host's onFlush is a parameter that may fail at each call, and the calls of it and of the timer
-- are recorded in the state.
-- Sampler: packages/bare-probe/core/sampler.ts, the hash on 32-bit words and the head and tail gates.
-- Hlc: packages/bare-probe/clock/hlc.ts, `send`, `recv`, `compare_hlc` and the wire form. A reading of
-- the wall clock is an argument, and `Number` on a string a parameter.
-- Framing: packages/bare-probe/transport/framing.ts, `encode_frame` and the framer's `push`. Its loop
-- `frames` runs on fuel, one round more than the buffer has bytes: each round drops a frame with its
-- prefix of four bytes.
-- Identity: packages/bare-protocol/src/identity.ts, `check_identity_drop`, and the guard of
-- packages/bare-probe/transport/capabilities.ts, `capabilities_allow_identity_drop`.
-- Envelope: packages/bare-protocol/src/envelope.ts, the envelope as a record and the integers of its
-- kinds;
-- Envelope/Encode and Envelope/Decode: encode.ts and decode.ts beside it, all four encodings, over the
-- modelled CBOR codec, registries, ULIDs and clocks. Envelope/Object has the objects that they build
-- and read field by field. `JSON.parse`, `JSON.stringify` and `Number` on a string are parameters.
-- Version: packages/bare-protocol/src/version.ts, `negotiate` and `tolerant_select`; the fields that
-- the code knows do not include `__proto__`, on which an assignment makes no property.
-- Ulid: packages/bare-protocol/src/ulid.ts, both conversions; a bigint is a natural number.
-- Registry: packages/bare-protocol/src/registry.ts, the method and the peer registry with the hash
-- `fnv1a64` as the 32-bit halves of the code compute it.
-- Utf8: packages/bare-protocol/src/utf8.ts, `utf8_encode` and `utf8_decode` with the fatal switch.
-- Cbor: packages/bare-protocol/src/cbor.ts, `encode_cbor` and `decode_cbor`. The decoder runs on fuel
-- and says `stuck` when that ends, since the code does not stop on every input; three units for each
-- byte are enough for what the encoder writes. A position or a length that is undefined or NaN is
-- written out; an array has no bound, where the host's ends below 2 ^ 32 elements. Doubles are a
-- parameter, with the laws of IEEE 754 that the codec uses as a record.
-- Redactor: packages/bare-probe/core/redactor.ts, class Redactor over values that are trees; Safe,
-- Rows and Resolve have what an exported row shows. `new URL` and `JSON.stringify` are parameters.
-- Adapter: packages/bare-probe/adapters. A tapped object is a state of the transport below with the
-- events that the probe has emitted; the object's own send is a parameter that returns or throws, and
-- so is the reading of the time. DataChannel, PeerConnection and Stats: webrtc.ts; Stream:
-- hyperswarm.ts; Socket: websocket.ts and env.ts. Run has an application on a tapped object and on the
-- object alone.
-- Observe: packages/bare-observe/src and packages/bare-probe/exporters/hyperswarm.ts. Exporter: the
-- framed exporter and the one of observe.ts that waits for a stream; Reporter: reporters.ts, with the
-- state of the socket as the host changes it; Inflight and Invoke: of observe.ts the calls in flight,
-- the log of calls and `handle_invoke` (handleInvoke), with the target of a name in Invoke/Target;
-- WrapClient: of wrap-client.ts a wrapped call and its promise or stream; Detect: detect.ts.
--
-- Not modelled: packages/bare-probe/clock/offset.ts and skew.ts; of
-- packages/bare-observe/src/observe.ts the identity of a source, the choice of the exporter and the
-- bridge of traces, of wrap-client.ts the walk over a client's properties and the default preview; the
-- native bridge, which calls objects of the host; the error messages. Numbers that are no integers are
-- left out of clocks, intervals and latencies, and the times of the events of a wrapped client too.
pub mod Adapter
pub mod Base
pub mod RingBuffer
pub mod Correlator
pub mod Framing
pub mod Utf8
pub mod Cbor
pub mod Flush
pub mod Sampler
pub mod Hlc
pub mod Version
pub mod Identity
pub mod Ulid
pub mod Registry
pub mod Sink
pub mod Envelope
pub mod Redactor
pub mod Observe
