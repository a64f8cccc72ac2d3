-- ===== src/Envelope/Parts.antt =====
-- Each part of an envelope through encode.ts and decode.ts: ids, peers, the clock value, the optionals.
use bare_network_inspect.Base.{
  ℕ, zero, suc, ◌^◌, ◌≤◌, ◌<◌, ◌≡◌, refl, ap, ◌⊎◌, inl, inr, Bool, true, false, ◌&&◌, Option, none,
  some, List, [], ◌∷◌, map, arith, length, drop, All, ltb, JsString, Option-cases,
}
use bare_network_inspect.Utf8.RoundTrip.{IsUnit, well_formed, encode_fits}
use bare_network_inspect.Cbor.{Cbor, text, bytes}
use bare_network_inspect.Cbor.RoundTrip.Plain.{IsText, IsPlain}
use bare_network_inspect.Ulid.{ulid_to_bytes, encode_char, to_base, from_base}
use bare_network_inspect.Ulid.Digits.{to_base-All, IsBase-32}
use bare_network_inspect.Ulid.Bijection.{bytes_to_ulid-ulid_to_bytes}
use bare_network_inspect.Registry.{
  PeerRegistry, handle_for, hash_for, handle_of, to_base32, fnv1a64, peer_from_handle,
  peer_from_hash, broadcast,
}
use bare_network_inspect.Registry.Peers.{
  peer_from_handle-handle_for, peer_from_hash-hash_for, length-fnv1a64, length-handle_of,
  is_same_refl,
}
use bare_network_inspect.Identity.{ChannelBinding}
use bare_network_inspect.Envelope.{P2pEnvelope}
use bare_network_inspect.Envelope.Encode.{
  Tier, compact, binary, id_value, optional_id, optional_text, optional_number, payload_value,
  peer_value, addresses,
}
use bare_network_inspect.Envelope.Decode.{
  ok, or_throw, recover_identity, read_text, read_number, read_optional, read_id, read_peer,
  read_addresses, or_undefined,
}

-- A string of ASCII characters that is short enough is carried as it is.
well_formed_ascii : (s : JsString) → All (λ ch. ch < 128) s → well_formed s ≡ true
unfolding well_formed
well_formed_ascii [] h = refl
well_formed_ascii (u ∷ []) h = ground arith
well_formed_ascii (u ∷ v ∷ us) h = ground (arith, well_formed_ascii (v ∷ us) h.1)

units_ascii : (s : JsString) → All (λ ch. ch < 128) s → All IsUnit s
units_ascii [] h = tt
units_ascii (u ∷ us) h = (omega arith, units_ascii us h.1)

pub ascii-IsText : (s : JsString) → All (λ ch. ch < 128) s → length s ≤ 100 → IsText s
ascii-IsText s h n = record {
  units = units_ascii s h;
  paired = well_formed_ascii s h;
  short = omega (arith, (encode_fits s (units_ascii s h)).0);
}

-- A Crockford character is an ASCII one.
abbrev all_below : ℕ → (ℕ → Bool) → Bool
all_below zero p = true
all_below (suc n) p = p n && all_below n p

all_below_lem : (n : ℕ) (p : ℕ → Bool) (k : ℕ) → all_below n p ≡ true → k < n → p k ≡ true
all_below_lem zero p k h l = absurd (omega arith)
all_below_lem (suc n) p k h l = ground (arith, all_below_lem n p k, ap p {x = k} {y = n})

encode_char-lt : (d : ℕ) → d < 32 → encode_char d < 128
unfolding encode_char
encode_char-lt d h =
    let k = all_below_lem 32 (λ k. ltb (encode_char k) 128) d refl h in ground arith

encode_chars-ascii :
    (ds : List ℕ) → All (λ d. d < 32) ds → All (λ ch. ch < 128) (map encode_char ds)
encode_chars-ascii [] h = tt
encode_chars-ascii (d ∷ ds) h = (encode_char-lt d h.0, encode_chars-ascii ds h.1)

handle_of-ascii : (peer : JsString) → All (λ ch. ch < 128) (handle_of peer)
unfolding handle_of to_base32
handle_of-ascii peer =
    let v = from_base 256 0 (drop 2 (fnv1a64 peer)) in
    encode_chars-ascii (to_base 32 8 v []) (to_base-All 32 IsBase-32 8 v [] tt)

broadcast-IsText : IsText broadcast
broadcast-IsText = ascii-IsText broadcast (omega arith) (omega arith)

handle_of-IsText : (peer : JsString) → IsText (handle_of peer)
handle_of-IsText peer =
    ascii-IsText (handle_of peer) (handle_of-ascii peer) (omega (arith, length-handle_of peer))

handle_for-cases :
    (r r' : PeerRegistry) (peer handle : JsString)
    → handle_for r peer ≡ some (r', handle)
    → (handle ≡ broadcast) ⊎ (handle ≡ handle_of peer)
unfolding handle_for
handle_for-cases r r' peer handle h = ground arith

handle_for-IsText :
    (r r' : PeerRegistry) (peer handle : JsString)
    → handle_for r peer ≡ some (r', handle)
    → IsText handle
handle_for-IsText r r' peer handle h = elim (handle_for-cases r r' peer handle h) [
  | inl e ↦ rw e broadcast-IsText
  | inr e ↦ rw e (handle_of-IsText peer)
]

peer_from_handle-broadcast : (r : PeerRegistry) → peer_from_handle r broadcast ≡ some broadcast
unfolding peer_from_handle
peer_from_handle-broadcast r = ground (arith, is_same_refl broadcast)

peer_from_hash-broadcast : (r : PeerRegistry) → peer_from_hash r [] ≡ some broadcast
unfolding peer_from_hash
peer_from_hash-broadcast r = refl

length-hash_for :
    (r r' : PeerRegistry) (peer : JsString) (hash : List ℕ)
    → hash_for r peer ≡ some (r', hash)
    → length hash ≤ 2 ^ 53
unfolding hash_for
length-hash_for r r' peer hash h = ground (arith, length-fnv1a64 peer, ap length {x = hash})

abbrev pub IsTextOption : Option JsString → Type 0
IsTextOption none = Unit {0}
IsTextOption (some s) = IsText s

abbrev pub IsSafeOption : Option ℕ → Type 0
IsSafeOption none = Unit {0}
IsSafeOption (some n) = n < 2 ^ 53

-- Where src and dst come from when they are not on the wire.
abbrev pub IsFound : Option ChannelBinding → Bool → JsString → JsString → Type 0
IsFound binding false src dst = Unit {0}
IsFound binding true src dst = recover_identity binding ≡ ok (src, dst)

or_throw_ok : (o : Option JsString) (a : JsString) → or_throw o ≡ ok a → o ≡ some a
or_throw_ok none a h = absurd (ground arith)
or_throw_ok (some b) a h = ground arith

module _ {F : Type 0} where
  -- A value that is absent, or that the wire carries as it is.
  abbrev pub IsPlainOption : Option (Cbor F) → Type 0
  IsPlainOption none = Unit {0}
  IsPlainOption (some v) = IsPlain v

  pub read_id-id_value :
      (tier : Tier) (id : JsString) (v : Cbor F)
      → IsText id
      → id_value tier id ≡ some v
      → (read_id tier (some v) ≡ ok id) × IsPlain v
  unfolding id_value read_id read_text IsPlain
  read_id-id_value compact id v t h = let e : text id ≡ v = ground arith in rw (← e) (refl, t)
  read_id-id_value binary id v t h = elim (Option-cases (ulid_to_bytes id)) [
    | inl e ↦ absurd (ground arith)
    | inr (b, e) ↦
        let k = bytes_to_ulid-ulid_to_bytes id b e in
        let w : bytes b ≡ v = ground arith in rw (← w) (ap or_throw k.1, omega (arith, k.0))
  ]

  pub read_optional-optional_id :
      (tier : Tier) (o : Option JsString) (v : Option (Cbor F))
      → IsTextOption o
      → optional_id tier o ≡ some v
      → (read_optional (read_id tier) v ≡ ok o) × IsPlainOption v
  unfolding optional_id read_optional
  read_optional-optional_id tier none v t h = let e : none ≡ v = ground arith in rw (← e) (refl, tt)
  read_optional-optional_id tier (some id) v t h = elim (Option-cases (id_value {F = F} tier id)) [
    | inl e ↦ absurd (ground arith)
    | inr (w, e) ↦
        let k = read_id-id_value tier id w t e in
        let u : some w ≡ v = ground arith in rw (← u) (rw k.0 refl, k.1)
  ]

  pub or_undefined-payload_value : (v : Cbor F) → or_undefined (payload_value v) ≡ v
  unfolding or_undefined payload_value
  or_undefined-payload_value v = ground arith

  pub read_optional-optional_text :
      (o : Option JsString) (v : Option (Cbor F))
      → IsTextOption o
      → optional_text o ≡ v
      → (read_optional read_text v ≡ ok o) × IsPlainOption v
  unfolding optional_text read_optional read_text IsPlain
  read_optional-optional_text none v t e = rw (← e) (refl, tt)
  read_optional-optional_text (some s) v t e = rw (← e) (refl, t)

  pub read_optional-optional_number :
      (o : Option ℕ) (v : Option (Cbor F))
      → IsSafeOption o
      → optional_number o ≡ v
      → (read_optional read_number v ≡ ok o) × IsPlainOption v
  unfolding optional_number read_optional read_number IsPlain
  read_optional-optional_number none v t e = rw (← e) (refl, tt)
  read_optional-optional_number (some n) v t e = rw (← e) (refl, t)

  -- A peer as it is written reads back, and what read back before reads back still.
  pub read_peer-peer_value :
      (tier : Tier) (r r' : PeerRegistry) (peer : JsString) (v : Cbor F)
      → peer_value tier r peer ≡ some (r', v)
      → (read_peer tier r' v ≡ ok peer) × IsPlain v
  unfolding peer_value read_peer IsPlain
  read_peer-peer_value compact r r' peer v h = elim (Option-cases (handle_for r peer)) [
    | inl e ↦ absurd (ground arith)
    | inr ((q, g), e) ↦
        let w : text g ≡ v = ground arith in
        let u : q ≡ r' = ground arith in
        let k =
          peer_from_handle-handle_for r q peer g broadcast broadcast e
            (peer_from_handle-broadcast r) in
        rw (← w, ← u) (ap or_throw k.0, handle_for-IsText r q peer g e)
  ]
  read_peer-peer_value binary r r' peer v h = elim (Option-cases (hash_for r peer)) [
    | inl e ↦ absurd (ground arith)
    | inr ((q, g), e) ↦
        let w : bytes g ≡ v = ground arith in
        let u : q ≡ r' = ground arith in
        let k = peer_from_hash-hash_for r q peer g [] broadcast e (peer_from_hash-broadcast r) in
        rw (← w, ← u) (ap or_throw k.0, length-hash_for r q peer g e)
  ]

  read_peer-keep :
      (tier : Tier) (r r' : PeerRegistry) (peer q : JsString) (v w : Cbor F)
      → peer_value tier r peer ≡ some (r', v)
      → read_peer tier r w ≡ ok q
      → read_peer tier r' w ≡ ok q
  unfolding peer_value read_peer
  read_peer-keep compact r r' peer q v (text g) h k = elim (Option-cases (handle_for r peer)) [
    | inl e ↦ absurd (ground arith)
    | inr ((p, handle), e) ↦
        let u : p ≡ r' = ground arith in
        let m =
          peer_from_handle-handle_for r p peer handle g q e
            (or_throw_ok (peer_from_handle r g) q k) in
        rw (← u) (ap or_throw m.1)
  ]
  read_peer-keep binary r r' peer q v (bytes g) h k = elim (Option-cases (hash_for r peer)) [
    | inl e ↦ absurd (ground arith)
    | inr ((p, hash), e) ↦
        let u : p ≡ r' = ground arith in
        let m =
          peer_from_hash-hash_for r p peer hash g q e (or_throw_ok (peer_from_hash r g) q k) in
        rw (← u) (ap or_throw m.1)
  ]
  read_peer-keep tier r r' peer q v w h k = absurd (ground arith)

  pub read_addresses-addresses :
      (tier : Tier) (r r' : PeerRegistry) (env : P2pEnvelope (Cbor F)) (drop : Bool)
      (binding : Option ChannelBinding) (s t : Option (Cbor F))
      → IsFound binding drop env.src env.dst
      → addresses tier r env drop ≡ some (r', (s, t))
      → (read_addresses (read_peer tier r') binding s t ≡ ok (env.src, env.dst))
        × IsPlainOption s
        × IsPlainOption t
  unfolding addresses read_addresses
  read_addresses-addresses tier r r' env true binding s t f h =
      let a : none ≡ s = ground arith in
      let b : none ≡ t = ground arith in rw (← a, ← b) (f, tt, tt)
  read_addresses-addresses tier r r' env false binding s t f h =
      elim (Option-cases (peer_value {F = F} tier r env.src)) [
        | inl e ↦ absurd (ground arith)
        | inr ((p, v), e) ↦ elim (Option-cases (peer_value {F = F} tier p env.dst)) [
          | inl g ↦ absurd (ground arith)
          | inr ((p', w), g) ↦
              let a : some v ≡ s = ground arith in
              let b : some w ≡ t = ground arith in
              let u : p' ≡ r' = ground arith in
              let src = read_peer-peer_value tier r p env.src v e in
              let dst = read_peer-peer_value tier p p' env.dst w g in
              let kept = read_peer-keep tier p p' env.dst env.src w v g src.0 in
              rw (← a, ← b, ← u) (rw (kept, dst.0) refl, src.1, dst.1)
        ]
      ]
