-- ===== src/Hlc/Wire.antt =====
-- The wire form "phys:ctr:node" of hlc.ts.
use bare_network_inspect.Base.{
  ℕ, zero, suc, ◌+◌, ◌/◌, ◌%◌, ◌≡◌, ◌≢◌, refl, Option, some, [], ◌∷◌, ◌++◌, All, JsString, arith,
}
use bare_network_inspect.Hlc.{
  HlcTime, digits, decimal, serialize_hlc, split_colon, named, parse_hlc,
}

pub split_colon-append :
    (xs rest : JsString)
    → All (λ ch. ch ≢ 58) xs
    → split_colon (xs ++ (58 ∷ rest)) ≡ some (xs, rest)
unfolding split_colon
split_colon-append [] rest h = refl
split_colon-append (x ∷ xs) rest h = ground (arith, split_colon-append xs rest)

pub digits-All :
    (fuel n : ℕ) (acc : JsString)
    → All (λ ch. ch ≢ 58) acc
    → All (λ ch. ch ≢ 58) (digits fuel n acc)
unfolding digits
digits-All zero n acc h = h
digits-All (suc fuel) n acc h =
    ground (arith, digits-All fuel (n / 10) ((48 + n % 10) ∷ acc) (omega arith, h))

pub decimal-All : (n : ℕ) → All (λ ch. ch ≢ 58) (decimal n)
unfolding decimal
decimal-All n = digits-All (suc n) n [] tt

named-some :
    (l c : ℕ) (id : JsString) → id ≢ [] → named l c id ≡ some (record { l = l; c = c; id = id })
unfolding named
named-some l c [] h = absurd (h refl)
named-some l c (x ∷ xs) h = refl

module _ (number : JsString → Option ℕ) where
  -- A clock value with a node id that is not empty, which may hold any characters, ':' too, is parsed
  -- back from its wire form, where `Number` reads back the decimal digits of its two numbers.
  pub parse_hlc-serialize_hlc :
      (t : HlcTime)
      → t.id ≢ []
      → number (decimal t.l) ≡ some t.l
      → number (decimal t.c) ≡ some t.c
      → parse_hlc number (serialize_hlc t) ≡ some t
  unfolding parse_hlc serialize_hlc
  parse_hlc-serialize_hlc t h p q =
      rw
        (
          split_colon-append (decimal t.l) (decimal t.c ++ (58 ∷ t.id)) (decimal-All t.l),
          split_colon-append (decimal t.c) t.id (decimal-All t.c),
          p,
          q,
        )
        (named-some t.l t.c t.id h)
