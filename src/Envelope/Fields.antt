-- ===== src/Envelope/Fields.antt =====
-- The object of a CBOR tier of encode.ts, as decode.ts reads it.
use bare_network_inspect.Base.{
  ℕ, ◌^◌, ◌<◌, ◌≡◌, refl, true, Option, none, some, [], ◌∷◌, arith, ℕ_discrete, JsString, same,
  ascii,
}
use bare_network_inspect.Base.Int.{pos}
use bare_network_inspect.Cbor.{Cbor, int, object}
use bare_network_inspect.Cbor.RoundTrip.Plain.{IsText, IsPlain}
use bare_network_inspect.Registry.{MethodRegistry, PeerRegistry, lookup}
use bare_network_inspect.Identity.{ChannelBinding}
use bare_network_inspect.Envelope.{P2pEnvelope, Kind, kind_to_int}
use bare_network_inspect.Envelope.Kinds.{int_to_kind-kind_to_int}
use bare_network_inspect.Envelope.Object.{
  object_of, get_field, entry, mentions, has_keys, get_field-object_of, IsPlainEntry,
  IsPlain-object_of,
}
use bare_network_inspect.Envelope.Encode.{
  Tier, optional_text, optional_number, payload_value, tier_entries,
}
use bare_network_inspect.Envelope.Decode.{
  ok, read_hlc, read_index, read_text, read_number, read_optional, read_id, read_peer,
  read_addresses, read_tier,
}
use bare_network_inspect.Envelope.Parts.{ascii-IsText, IsPlainOption, or_undefined-payload_value}

-- A one-letter key is carried as it is.
letter : (k : ℕ) → k < 128 → IsText (k ∷ [])
letter k h = ascii-IsText (k ∷ []) (h, tt) (omega arith)

kind_to_int-lt : (k : Kind) → kind_to_int k < 2 ^ 53
unfolding kind_to_int
kind_to_int-lt k = ground arith

module _ {F : Type 0} where
  -- The values of the object, as the reader has to find them.
  pub record AreRead (env : P2pEnvelope (Cbor F)) (tier : Tier) (methods : MethodRegistry)
      (peers : PeerRegistry) (binding : Option ChannelBinding) (i c : Cbor F) (m : ℕ) (h : Cbor F)
      (b s t : Option (Cbor F)) : Type 0 where
    pub hlc : read_hlc (some h) ≡ ok env.hlc
    pub method : lookup methods m ≡ some env.method
    pub ends : read_addresses (read_peer tier peers) binding s t ≡ ok (env.src, env.dst)
    pub msg_id : read_id tier (some i) ≡ ok env.msg_id
    pub corr_id : read_id tier (some c) ≡ ok env.corr_id
    pub caused_by : read_optional (read_id tier) b ≡ ok env.caused_by
    pub traceparent :
        read_optional read_text (optional_text {F = F} env.traceparent) ≡ ok env.traceparent
    pub ttl : read_optional read_number (optional_number {F = F} env.ttl) ≡ ok env.ttl

  has_keys-tier_entries :
      (env : P2pEnvelope (Cbor F)) (i c : Cbor F) (m : ℕ) (h : Cbor F) (b : Option (Cbor F))
      (st : Option (Cbor F) × Option (Cbor F))
      → has_keys (tier_entries env i c m h b st) ≡ true
  unfolding has_keys mentions tier_entries same ℕ_discrete
  has_keys-tier_entries env i c m h b (s, t) = refl

  found :
      (env : P2pEnvelope (Cbor F)) (i c : Cbor F) (m : ℕ) (h : Cbor F) (b : Option (Cbor F))
      (st : Option (Cbor F) × Option (Cbor F)) (k : JsString)
      → get_field (object_of (tier_entries env i c m h b st)) k
        ≡ entry (tier_entries env i c m h b st) k
  found env i c m h b st k =
      get_field-object_of (tier_entries env i c m h b st) k (has_keys-tier_entries env i c m h b st)

  pub read_tier-tier_entries :
      (env : P2pEnvelope (Cbor F)) (tier : Tier) (methods : MethodRegistry) (peers : PeerRegistry)
      (binding : Option ChannelBinding) (i c : Cbor F) (m : ℕ) (h : Cbor F)
      (b s t : Option (Cbor F))
      → env.v ≡ 1
      → AreRead env tier methods peers binding i c m h b s t
      → read_tier (object_of (tier_entries env i c m h b (s, t))) tier methods peers binding
        ≡ ok env
  unfolding entry tier_entries same ℕ_discrete read_tier read_index read_number
  read_tier-tier_entries env tier methods peers binding i c m h b s t v r =
      let fs = object_of (tier_entries env i c m h b (s, t)) in
      let get = found env i c m h b (s, t) in
      let e_h : get_field fs (ascii "h") ≡ some h = get (ascii "h") in
      let e_m : get_field fs (ascii "m") ≡ some (int (pos m)) = get (ascii "m") in
      let e_k : get_field fs (ascii "k") ≡ some (int (pos (kind_to_int env.kind))) =
        get (ascii "k") in
      let e_s : get_field fs (ascii "s") ≡ s = get (ascii "s") in
      let e_d : get_field fs (ascii "d") ≡ t = get (ascii "d") in
      let e_i : get_field fs (ascii "i") ≡ some i = get (ascii "i") in
      let e_c : get_field fs (ascii "c") ≡ some c = get (ascii "c") in
      let e_t : get_field fs (ascii "t") ≡ some (int (pos env.ts)) = get (ascii "t") in
      let e_b : get_field fs (ascii "b") ≡ b = get (ascii "b") in
      let e_r : get_field fs (ascii "r") ≡ optional_text env.traceparent = get (ascii "r") in
      let e_l : get_field fs (ascii "l") ≡ optional_number env.ttl = get (ascii "l") in
      let e_p : get_field fs (ascii "p") ≡ payload_value env.payload = get (ascii "p") in
      rw
        (
          e_h,
          r.hlc,
          e_m,
          r.method,
          e_k,
          int_to_kind-kind_to_int env.kind,
          e_s,
          e_d,
          r.ends,
          e_i,
          r.msg_id,
          e_c,
          r.corr_id,
          e_t,
          e_b,
          r.caused_by,
          e_r,
          r.traceparent,
          e_l,
          r.ttl,
          e_p,
          or_undefined-payload_value env.payload,
          ← v,
        )
        refl

  entry_of : (k : ℕ) (v : Option (Cbor F)) → k < 128 → IsPlainOption v → IsPlainEntry (k ∷ [], v)
  entry_of k none h p = tt
  entry_of k (some v) h p = (letter k h, p)

  pub IsPlain-tier_entries :
      (env : P2pEnvelope (Cbor F)) (i c : Cbor F) (m : ℕ) (h : Cbor F) (b s t : Option (Cbor F))
      → env.v ≡ 1
      → IsPlain i
      → IsPlain c
      → m < 2 ^ 53
      → env.ts < 2 ^ 53
      → IsPlain h
      → IsPlainOption b
      → IsPlainOption (optional_text {F = F} env.traceparent)
      → IsPlainOption (optional_number {F = F} env.ttl)
      → IsPlainOption (payload_value env.payload)
      → IsPlainOption s
      → IsPlainOption t
      → IsPlain (object (object_of (tier_entries env i c m h b (s, t))))
  unfolding tier_entries IsPlain kind_to_int
  IsPlain-tier_entries env i c m h b s t v pi pc pm pt ph pb pr pl pp ps pd =
      IsPlain-object_of (tier_entries env i c m h b (s, t)) (omega arith)
        (has_keys-tier_entries env i c m h b (s, t))
        (
          (letter 118 (omega arith), omega (arith, v)),
          (
            (letter 105 (omega arith), pi),
            (
              (letter 99 (omega arith), pc),
              (
                (letter 107 (omega arith), kind_to_int-lt env.kind),
                (
                  (letter 109 (omega arith), pm),
                  (
                    (letter 116 (omega arith), pt),
                    (
                      (letter 104 (omega arith), ph),
                      (
                        entry_of 98 b (omega arith) pb,
                        (
                          entry_of 114 (optional_text env.traceparent) (omega arith) pr,
                          (
                            entry_of 108 (optional_number env.ttl) (omega arith) pl,
                            (
                              entry_of 112 (payload_value env.payload) (omega arith) pp,
                              (
                                entry_of 115 s (omega arith) ps,
                                (entry_of 100 t (omega arith) pd, tt),
                              ),
                            ),
                          ),
                        ),
                      ),
                    ),
                  ),
                ),
              ),
            ),
          ),
        )
