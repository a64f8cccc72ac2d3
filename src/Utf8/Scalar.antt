-- ===== src/Utf8/Scalar.antt =====
-- One scalar value through the encoder and the decoder of utf8.ts.
use bare_network_inspect.Base.{
  ℕ, ◌+◌, ◌*◌, ◌/◌, ◌%◌, ◌≤◌, ◌<◌, ◌≡◌, refl, ap, ◌∙◌, ◌⊎◌, Bool, Option, none, some, List, [], ◌∷◌,
  ◌++◌, arith, dec_lt, ◌==◌, if◌then◌else◌, JsString,
}
use bare_network_inspect.Utf8.{code_point_bytes, Decoder, initial, push, byte, decode_from}

-- A Unicode scalar value: a code point that is no surrogate.
abbrev pub IsScalar : ℕ → Type 0
IsScalar cp = (cp < 0x110000) × ((cp < 0xd800) ⊎ (0xdfff < cp))

one_byte : (fatal : Bool) (cp : ℕ) → cp < 0x80 → byte fatal initial cp ≡ some (initial, push cp)
unfolding byte
one_byte fatal cp h = ground arith

abbrev state : ℕ → ℕ → ℕ → ℕ → ℕ → Decoder
state n s c l u = record { needed = n; seen = s; cp = c; lower = l; upper = u }

lead_two :
    (fatal : Bool) (x : ℕ)
    → 2 ≤ x
    → x < 32
    → byte fatal initial (0xc0 + x) ≡ some (state 1 0 x 0x80 0xbf, [])
unfolding byte
lead_two fatal x h k = ground arith

lead_three :
    (fatal : Bool) (x : ℕ)
    → x < 16
    → byte fatal initial (0xe0 + x)
      ≡ some (state 2 0 x (if x == 0 then 0xa0 else 0x80) (if x == 13 then 0x9f else 0xbf), [])
unfolding byte
lead_three fatal x h = ground arith

lead_four :
    (fatal : Bool) (x : ℕ)
    → x < 5
    → byte fatal initial (0xf0 + x)
      ≡ some (state 3 0 x (if x == 0 then 0x90 else 0x80) (if x == 4 then 0x8f else 0xbf), [])
unfolding byte
lead_four fatal x h = ground arith

-- A continuation byte in range.
continues :
    (fatal : Bool) (n s c l u x : ℕ)
    → s + 1 < n
    → x < 64
    → l ≤ 0x80 + x
    → 0x80 + x ≤ u
    → byte fatal (state n s c l u) (0x80 + x) ≡ some (state n (s + 1) (c * 64 + x) 0x80 0xbf, [])
unfolding byte
continues fatal n s c l u x h k p q = ground arith

last :
    (fatal : Bool) (n s c l u x : ℕ)
    → s + 1 ≡ n
    → x < 64
    → l ≤ 0x80 + x
    → 0x80 + x ≤ u
    → byte fatal (state n s c l u) (0x80 + x) ≡ some (initial, push (c * 64 + x))
unfolding byte
last fatal n s c l u x h k p q = ground arith

-- Units in front of what the rest of the input gives.
abbrev pub prefix : JsString → Option JsString → Option JsString
prefix out none = none
prefix out (some rest) = some (out ++ rest)

pub decode_step :
    (fatal : Bool) (d d' : Decoder) (b : ℕ) (out : JsString) (bs : List ℕ)
    → byte fatal d b ≡ some (d', out)
    → decode_from fatal d (b ∷ bs) ≡ prefix out (decode_from fatal d' bs)
unfolding decode_from
decode_step fatal d d' b out bs e = ground arith

prefix-nil : (r : Option JsString) → prefix [] r ≡ r
prefix-nil none = refl
prefix-nil (some rest) = refl

quiet_step :
    (fatal : Bool) (d d' : Decoder) (b : ℕ) (bs : List ℕ)
    → byte fatal d b ≡ some (d', [])
    → decode_from fatal d (b ∷ bs) ≡ decode_from fatal d' bs
quiet_step fatal d d' b bs e = decode_step fatal d d' b [] bs e ∙ prefix-nil _

module _ (fatal : Bool) (rest : List ℕ) where
  abbrev after : ℕ → Option JsString
  after cp = prefix (push cp) (decode_from fatal initial rest)

  two_bytes :
      (cp : ℕ)
      → 0x80 ≤ cp
      → cp < 0x800
      → decode_from fatal initial ((0xc0 + cp / 64) ∷ (0x80 + cp % 64) ∷ rest) ≡ after cp
  two_bytes cp h k =
      quiet_step fatal initial _ _ _ (lead_two fatal (cp / 64) (omega arith) (omega arith))
      ∙ decode_step fatal _ initial _ (push (cp / 64 * 64 + cp % 64)) rest (
          last fatal 1 0 (cp / 64) 0x80 0xbf (cp % 64) refl (omega arith) (omega arith)
            (omega arith))
      ∙ ap after {x = cp / 64 * 64 + cp % 64} (omega arith)

  three_bytes :
      (cp : ℕ)
      → 0x800 ≤ cp
      → cp < 0x10000
      → IsScalar cp
      → decode_from fatal initial
          ((0xe0 + cp / 4096) ∷ (0x80 + cp / 64 % 64) ∷ (0x80 + cp % 64) ∷ rest)
        ≡ after cp
  three_bytes cp h k s =
      quiet_step fatal initial _ _ _ (lead_three fatal (cp / 4096) (omega arith))
      ∙ quiet_step fatal _ _ _ _
          (continues fatal 2 0 (cp / 4096) _ _ (cp / 64 % 64) (omega arith) (omega arith) low high)
      ∙ decode_step fatal _ initial _ (push ((cp / 4096 * 64 + cp / 64 % 64) * 64 + cp % 64)) rest (
          last fatal 2 1 (cp / 4096 * 64 + cp / 64 % 64) 0x80 0xbf (cp % 64) refl (omega arith)
            (omega arith) (omega arith))
      ∙ ap after {x = (cp / 4096 * 64 + cp / 64 % 64) * 64 + cp % 64} (omega arith)
    where
      low : (if cp / 4096 == 0 then 0xa0 else 0x80) ≤ 0x80 + cp / 64 % 64
      low = ground arith

      high : 0x80 + cp / 64 % 64 ≤ (if cp / 4096 == 13 then 0x9f else 0xbf)
      high = ground arith

  four_bytes :
      (cp : ℕ)
      → 0x10000 ≤ cp
      → cp < 0x110000
      → decode_from fatal initial (
          (0xf0 + cp / 262144)
          ∷ (0x80 + cp / 4096 % 64)
          ∷ (0x80 + cp / 64 % 64)
          ∷ (0x80 + cp % 64)
          ∷ rest)
        ≡ after cp
  four_bytes cp h k =
      quiet_step fatal initial _ _ _ (lead_four fatal (cp / 262144) (omega arith))
      ∙ quiet_step fatal _ _ _ _ (
          continues fatal 3 0 (cp / 262144) _ _ (cp / 4096 % 64) (omega arith) (omega arith) low
            high)
      ∙ quiet_step fatal _ _ _ _ (
          continues fatal 3 1 (cp / 262144 * 64 + cp / 4096 % 64) 0x80 0xbf (cp / 64 % 64)
            (omega arith) (omega arith) (omega arith) (omega arith))
      ∙ decode_step fatal _ initial _
          (push (((cp / 262144 * 64 + cp / 4096 % 64) * 64 + cp / 64 % 64) * 64 + cp % 64)) rest
          (last fatal 3 2 ((cp / 262144 * 64 + cp / 4096 % 64) * 64 + cp / 64 % 64) 0x80 0xbf
            (cp % 64) refl (omega arith) (omega arith) (omega arith))
      ∙ ap after {x = ((cp / 262144 * 64 + cp / 4096 % 64) * 64 + cp / 64 % 64) * 64 + cp % 64}
          (omega arith)
    where
      low : (if cp / 262144 == 0 then 0x90 else 0x80) ≤ 0x80 + cp / 4096 % 64
      low = ground arith

      high : 0x80 + cp / 4096 % 64 ≤ (if cp / 262144 == 4 then 0x8f else 0xbf)
      high = ground arith

  -- The decoder reads back each scalar value that the encoder wrote.
  pub decode-code_point_bytes :
      (cp : ℕ) → IsScalar cp → decode_from fatal initial (code_point_bytes cp ++ rest) ≡ after cp
  unfolding code_point_bytes
  decode-code_point_bytes cp s = elim (dec_lt cp 0x80) [
    | yes p ↦
        ground (arith, decode_step fatal initial initial cp (push cp) rest (one_byte fatal cp p))
    | no p ↦ elim (dec_lt cp 0x800) [
      | yes q ↦ ground (arith, two_bytes cp (omega arith) q)
      | no q ↦ elim (dec_lt cp 0x10000) [
        | yes r ↦ ground (arith, three_bytes cp (omega arith) r s)
        | no r ↦ ground (arith, four_bytes cp (omega arith) s.0)
      ]
    ]
  ]
