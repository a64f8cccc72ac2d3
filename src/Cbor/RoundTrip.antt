-- ===== src/Cbor/RoundTrip.antt =====
-- Values through the encoder and the decoder of cbor.ts.
pub mod Plain
pub mod Scalars
pub mod Values
