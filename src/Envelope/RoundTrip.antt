-- ===== src/Envelope/RoundTrip.antt =====
-- An envelope through a CBOR tier of encode.ts and decode.ts.
use bare_network_inspect.Base.{
  ℕ, zero, suc, ◌+◌, ◌*◌, ◌^◌, ◌≤◌, ◌<◌, ◌≡◌, refl, sym, ap, ◌⊎◌, inl, inr, Bool, Option, some,
  List, [], ◌∷◌, ◌++◌, arith, length, JsString, same, Option-cases, get_elem?, map_get,
  length-append,
}
use bare_network_inspect.Base.Int.{ℤ, pos}
use bare_network_inspect.Cbor.{
  Double, Cbor, int, text, array, object, nil, cons, count_items, encode_cbor,
}
use bare_network_inspect.Cbor.Head.{IsIeee}
use bare_network_inspect.Cbor.RoundTrip.Plain.{IsText, IsPlain}
use bare_network_inspect.Cbor.RoundTrip.Values.{decode_cbor-encode_cbor}
use bare_network_inspect.Hlc.{HlcTime, decimal, serialize_hlc}
use bare_network_inspect.Hlc.Wire.{split_colon-append, decimal-All}
use bare_network_inspect.Registry.{MethodRegistry, PeerRegistry, intern, lookup}
use bare_network_inspect.Registry.Methods.{IsLossless, intern-IsLossless}
use bare_network_inspect.Identity.{ChannelBinding}
use bare_network_inspect.Envelope.{P2pEnvelope}
use bare_network_inspect.Envelope.Object.{Entries, object_of}
use bare_network_inspect.Envelope.Encode.{
  Tier, EncodeOptions, Registries, id_value, optional_id, optional_text, optional_number,
  payload_value, number_value, addresses, split_hlc, tier_entries, tier_object, encode_cbor_tier,
}
use bare_network_inspect.Envelope.Decode.{
  ok, printed, read_hlc, read_tier, read_decoded, decode_cbor_tier,
}
use bare_network_inspect.Envelope.Parts.{
  IsTextOption, IsSafeOption, IsFound, IsPlainOption, read_id-id_value, read_optional-optional_id,
  read_optional-optional_text, read_optional-optional_number, read_addresses-addresses,
}
use bare_network_inspect.Envelope.Fields.{read_tier-tier_entries, IsPlain-tier_entries}

-- An envelope that a CBOR tier carries: its clock value is the wire form of `t` and read as such by the
-- host, its strings are without lone surrogates, its numbers below 2^53, its payload `undefined` or plain.
pub record IsCarried {F : Type 0} (number : JsString → ℤ ⊎ F) (env : P2pEnvelope (Cbor F))
    (t : HlcTime) : Type 0 where
  pub v : env.v ≡ 1
  pub hlc : env.hlc ≡ serialize_hlc t
  pub phys : number (decimal t.l) ≡ inl (pos t.l)
  pub ctr : number (decimal t.c) ≡ inl (pos t.c)
  pub l : t.l < 2 ^ 53
  pub c : t.c < 2 ^ 53
  pub node : IsText t.id
  pub msg_id : IsText env.msg_id
  pub corr_id : IsText env.corr_id
  pub caused_by : IsTextOption env.caused_by
  pub traceparent : IsTextOption env.traceparent
  pub ts : env.ts < 2 ^ 53
  pub ttl : IsSafeOption env.ttl
  pub payload : IsPlainOption (payload_value env.payload)

-- The registry is as the constructor and `intern` leave it, with room for one more safe integer.
pub record HasRoom (methods : MethodRegistry) : Type 0 where
  pub lossless : IsLossless methods
  pub room : length methods.i2s < 2 ^ 53

get_elem?-lt : (xs : List JsString) (i : ℕ) (x : JsString) → get_elem? xs i ≡ some x → i < length xs
get_elem?-lt [] i x h = absurd (ground arith)
get_elem?-lt (y ∷ ys) zero x h = omega arith
get_elem?-lt (y ∷ ys) (suc i) x h = omega (arith, get_elem?-lt ys i x h)

length-intern : (r : MethodRegistry) (m : JsString) → length (intern r m).0.i2s ≤ length r.i2s + 1
unfolding intern
length-intern r m = elim (Option-cases (map_get same m r.s2i)) [
  | inl e ↦ rw (e, intern) (omega (arith, length-append r.i2s (m ∷ [])))
  | inr (i, e) ↦ rw (e, intern) (omega arith)
]

index_safe : (r : MethodRegistry) (m : JsString) → HasRoom r → (intern r m).1 < 2 ^ 53
index_safe r m h =
    let k = (intern-IsLossless r m h.lossless).1 in
    omega (
      arith,
      h.room,
      length-intern r m,
      get_elem?-lt (intern r m).0.i2s (intern r m).1 m (unfold lookup in k),
    )

module _ {F : Type 0} where
  unfoldable pub clock_value : HlcTime → Cbor F
  clock_value t = array (cons (int (pos t.l)) (cons (int (pos t.c)) (cons (text t.id) nil)))

module _ {F : Type 0} (d : Double F) (number : JsString → ℤ ⊎ F) where
  split_hlc-serialize_hlc :
      (env : P2pEnvelope (Cbor F)) (t : HlcTime)
      → IsCarried number env t
      → split_hlc d number env.hlc ≡ some (clock_value t)
  unfolding split_hlc serialize_hlc clock_value number_value
  split_hlc-serialize_hlc env t i =
      rw
        (
          i.hlc,
          split_colon-append (decimal t.l) (decimal t.c ++ (58 ∷ t.id)) (decimal-All t.l),
          split_colon-append (decimal t.c) t.id (decimal-All t.c),
          i.phys,
          i.ctr,
        )
        refl

  read_hlc-clock_value :
      (env : P2pEnvelope (Cbor F)) (t : HlcTime)
      → IsCarried number env t
      → (read_hlc (some (clock_value {F = F} t)) ≡ ok env.hlc) × IsPlain (clock_value {F = F} t)
  unfolding read_hlc printed clock_value serialize_hlc IsPlain count_items
  read_hlc-clock_value env t i = (ap ok (sym i.hlc), (omega arith, (i.l, (i.c, (i.node, tt)))))

  tier_object-read :
      (env : P2pEnvelope (Cbor F)) (t : HlcTime) (tier : Tier) (methods methods' : MethodRegistry)
      (peers peers' : PeerRegistry) (drop : Bool) (binding : Option ChannelBinding) (es : Entries F)
      → IsCarried number env t
      → HasRoom methods
      → IsFound binding drop env.src env.dst
      → tier_object d number env tier methods peers drop ≡ some (es, (methods', peers'))
      → (read_tier (object_of es) tier methods' peers' binding ≡ ok env)
        × IsPlain (object (object_of es))
  unfolding tier_object
  tier_object-read env t tier methods methods' peers peers' drop binding es car room f e =
      let hl = split_hlc-serialize_hlc env t car in
      elim (Option-cases (id_value {F = F} tier env.msg_id)) [
        | inl g ↦ absurd (ground (arith, hl))
        | inr (i, g) ↦ elim (Option-cases (id_value {F = F} tier env.corr_id)) [
          | inl k ↦ absurd (ground (arith, hl))
          | inr (c, k) ↦ elim (Option-cases (optional_id {F = F} tier env.caused_by)) [
            | inl l ↦ absurd (ground (arith, hl))
            | inr (b, l) ↦ elim (Option-cases (addresses {F = F} tier peers env drop)) [
              | inl q ↦ absurd (ground (arith, hl))
              | inr ((p, (s, u)), q) ↦
                  let m = intern methods env.method in
                  let w1 : tier_entries env i c m.1 (clock_value t) b (s, u) ≡ es =
                    ground (arith, hl) in
                  let w2 : m.0 ≡ methods' = ground (arith, hl) in
                  let w3 : p ≡ peers' = ground (arith, hl) in
                  let rh = read_hlc-clock_value env t car in
                  let ri = read_id-id_value tier env.msg_id i car.msg_id g in
                  let rc = read_id-id_value tier env.corr_id c car.corr_id k in
                  let rb = read_optional-optional_id tier env.caused_by b car.caused_by l in
                  let rt =
                    read_optional-optional_text {F = F} env.traceparent
                      (optional_text env.traceparent) car.traceparent refl in
                  let rl =
                    read_optional-optional_number {F = F} env.ttl (optional_number env.ttl) car.ttl
                      refl in
                  let ra = read_addresses-addresses tier peers p env drop binding s u f q in
                  rw (← w1, ← w2, ← w3)
                    (
                      read_tier-tier_entries env tier m.0 p binding i c m.1 (clock_value t) b s u
                          car.v
                          (record {
                            hlc = rh.0;
                            method = (intern-IsLossless methods env.method room.lossless).1;
                            ends = ra.0;
                            msg_id = ri.0;
                            corr_id = rc.0;
                            caused_by = rb.0;
                            traceparent = rt.0;
                            ttl = rl.0;
                          }),
                      IsPlain-tier_entries env i c m.1 (clock_value t) b s u car.v ri.1 rc.1
                          (index_safe methods env.method room) car.ts rh.1 rb.1 rt.1 rl.1
                          car.payload ra.1 ra.2,
                    )
            ]
          ]
        ]
      ]

  -- What `encode` writes in a CBOR tier for an envelope that the tier carries, `decode` with the
  -- registries that `encode` left behind reads as the same envelope. If src and dst are dropped, the
  -- channel's binding finds them; the method registry is lossless with room for one more, and the
  -- doubles are those of IEEE 754.
  pub decode_cbor_tier-encode_cbor_tier :
      (parse : JsString → Option (Cbor F)) (env : P2pEnvelope (Cbor F)) (t : HlcTime) (tier : Tier)
      (methods : MethodRegistry) (o : EncodeOptions) (drop : Bool) (binding : Option ChannelBinding)
      (bs : List ℕ) (r : Registries)
      → IsIeee d
      → IsCarried number env t
      → o.methods ≡ some methods
      → HasRoom methods
      → IsFound binding drop env.src env.dst
      → encode_cbor_tier d number env tier o drop ≡ some (bs, r)
      → decode_cbor_tier d parse (3 * length bs) bs tier (record {
        encoding = o.encoding;
        methods = r.methods;
        peers = r.peers;
        binding = binding;
      })
        ≡ ok env
  unfolding encode_cbor_tier decode_cbor_tier read_decoded
  decode_cbor_tier-encode_cbor_tier parse env t tier methods o drop binding bs r ieee car em room f
        e =
      elim (Option-cases o.peers) [
        | inl ep ↦ absurd (ground arith)
        | inr (peers, ep) ↦ elim (Option-cases (tier_object d number env tier methods peers drop)) [
          | inl et ↦ absurd (ground arith)
          | inr ((es, (methods', peers')), et) ↦
              let read =
                tier_object-read env t tier methods methods' peers peers' drop binding es car room f
                  et in
              let w1 : encode_cbor d (object (object_of es)) ≡ bs = ground arith in
              let w2 : some methods' ≡ r.methods = ground arith in
              let w3 : some peers' ≡ r.peers = ground arith in
              let back = decode_cbor-encode_cbor d ieee (object (object_of es)) read.1 in
              rw (← w1, ← w2, ← w3, back) read.0
        ]
      ]
