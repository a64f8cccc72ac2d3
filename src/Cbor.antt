-- ===== src/Cbor.antt =====
-- packages/bare-protocol/src/cbor.ts: the values, the encoder and the decoder.
-- Integers are exact; what a double does beyond 2 ^ 53, and the 8 bytes of a double that is no
-- integer, belong to the language and are the parameter `Double`.
pub mod Head
pub mod RoundTrip
pub mod Runaway
pub mod Tests
use bare_network_inspect.Base.{
  ℕ, zero, suc, ◌+◌, ◌-◌, ◌*◌, ◌/◌, ◌%◌, ◌^◌, ◌⊎◌, inl, inr, ite, Bool, true, false, ◌||◌, Option,
  none, some, List, [], ◌∷◌, ◌++◌, ltb, ◌==◌, if◌then◌else◌, length, get_elem?, get_or, take, drop,
  JsString, same, ascii,
}
use bare_network_inspect.Base.Int.{ℤ, pos, negsuc}
use bare_network_inspect.Utf8.{utf8_encode, utf8_decode}

-- `F` stands for the doubles that are no integers, NaN and the infinities among them.
pub record Double (F : Type 0) : Type 0 where
  pub nan : F
  -- `setFloat64` and `getFloat64`, big-endian; a read may give an integer.
  pub set_float64 : F → List ℕ
  pub get_float64 : List ℕ → ℤ ⊎ F
  -- The double that a whole number becomes.
  pub round : ℕ → ℕ

-- `Cbor`, with arrays and objects as data types of their own. The fields of an object stand in
-- the order of `Object.keys`.
mutual
  pub data Cbor (F : Type 0) : Type 0 where
    null : Cbor F
    undefined : Cbor F
    boolean : Bool → Cbor F
    int : ℤ → Cbor F
    float : F → Cbor F
    text : JsString → Cbor F
    bytes : List ℕ → Cbor F
    array : Items F → Cbor F
    object : Fields F → Cbor F

  pub data Items (F : Type 0) : Type 0 where
    nil : Items F
    cons : Cbor F → Items F → Items F

  pub data Fields (F : Type 0) : Type 0 where
    end : Fields F
    field : JsString → Cbor F → Fields F → Fields F

-- A value, an exception, or the fuel ran out.
pub data Result {ℓ} (A : Type ℓ) : Type ℓ where
  ok : A → Result A
  thrown : Result A
  stuck : Result A

infixl 5 ◌>>=◌
abbrev pub ◌>>=◌ {ℓ κ} : {A : Type ℓ} {B : Type κ} → Result A → (A → Result B) → Result B
ok a >>= f = f a
thrown >>= f = thrown
stuck >>= f = stuck

-- `writeHead`: the major type with the argument `n` in its shortest form.
unfoldable pub write_head : ℕ → ℕ → List ℕ
write_head major n =
    let m = major * 2 ^ 5 in
    if ltb n 24
    then (m + n) ∷ []
    else if ltb n 0x100
    then (m + 24) ∷ n ∷ []
    else if ltb n 0x10000
    then (m + 25) ∷ (n / 2 ^ 8 % 256) ∷ (n % 256) ∷ []
    else if ltb n 0x100000000
    then (m + 26) ∷ (n / 2 ^ 24 % 256) ∷ (n / 2 ^ 16 % 256) ∷ (n / 2 ^ 8 % 256) ∷ (n % 256) ∷ []
    else let hi = n / 0x100000000 in
      let lo = n % 0x100000000 in
      (m + 27)
      ∷ (hi / 2 ^ 24 % 256)
      ∷ (hi / 2 ^ 16 % 256)
      ∷ (hi / 2 ^ 8 % 256)
      ∷ (hi % 256)
      ∷ (lo / 2 ^ 24 % 256)
      ∷ (lo / 2 ^ 16 % 256)
      ∷ (lo / 2 ^ 8 % 256)
      ∷ (lo % 256)
      ∷ []

module _ {F : Type 0} where
  unfoldable pub count_items : Items F → ℕ
  count_items nil = 0
  count_items (cons x xs) = suc (count_items xs)

  unfoldable pub count_fields : Fields F → ℕ
  count_fields end = 0
  count_fields (field k v fs) = suc (count_fields fs)

  -- `obj[k] = val`: an old key keeps its place. The key `__proto__` names the prototype's
  -- accessor, so no property is made.
  unfoldable pub put_field : Fields F → JsString → Cbor F → Fields F
  put_field end k v = field k v end
  put_field (field j w fs) k v = ite (same j k) (field k v fs) (field j w (put_field fs k v))

  unfoldable pub set_property : Fields F → JsString → Cbor F → Fields F
  unfolding put_field
  set_property fs k v = ite (same k (ascii "__proto__")) fs (put_field fs k v)

-- What `readLen` returns: a length, `none` for `undefined` and NaN, and the next position.
abbrev pub Length : Type 0
Length = Option ℕ × ℕ

-- The sum of four bytes from `p` on; NaN if the last of them is not there.
unfoldable pub word32 : List ℕ → ℕ → Option ℕ
word32 buf p = elim (get_elem? buf (p + 3)) [
  | none ↦ none
  | some low ↦ some (
      get_or buf p 0 * 0x1000000
      + get_or buf (p + 1) 0 * 2 ^ 16
      + get_or buf (p + 2) 0 * 2 ^ 8
      + low)
]

module _ {F : Type 0} (d : Double F) where
  unfoldable pub read_len : List ℕ → ℕ → ℕ → Result Length
  unfolding word32
  read_len buf ai p =
      if ltb ai 24
      then ok (some ai, p)
      else if ai == 24
      then ok (get_elem? buf p, p + 1)
      else if ai == 25
      then ok (some (get_or buf p 0 * 2 ^ 8 + get_or buf (p + 1) 0), p + 2)
      else if ai == 26
      then elim (word32 buf p) [ none ↦ ok (some 0, p + 4) | some n ↦ ok (some n, p + 4) ]
      else if ai == 27
      then elim (word32 buf p) [
        | none ↦ ok (none, p + 8)
        | some hi ↦ elim (word32 buf (p + 4)) [
          | none ↦ ok (none, p + 8)
          | some lo ↦ ok (some (d.round (hi * 0x100000000 + lo)), p + 8)
        ]
      ]
      else thrown

  -- A position is `none` when it is NaN.
  abbrev pub Decoded : Type 0
  Decoded = Result (Cbor F × Option ℕ)

  -- Major types 0 and 1.
  unfoldable pub unsigned : Length → Decoded
  unsigned (none, p) = ok (float d.nan, some p)
  unsigned (some n, p) = ok (int (pos n), some p)

  unfoldable pub negative : Length → Decoded
  negative (none, p) = ok (float d.nan, some p)
  negative (some n, p) = ok (int (negsuc (d.round (n + 1) - 1)), some p)

  -- Major type 2. A length that is no number passes the test, and the slice is empty.
  unfoldable pub byte_string : List ℕ → Length → Decoded
  byte_string buf (none, p) = ok (bytes [], none)
  byte_string buf (some n, p) =
      if ltb (length buf) (p + n) then thrown else ok (bytes (take n (drop p buf)), some (p + n))

  -- Major type 3.
  unfoldable pub text_string : List ℕ → Length → Decoded
  text_string buf (none, p) = ok (text [], none)
  text_string buf (some n, p) =
      if ltb (length buf) (p + n) then thrown else elim (utf8_decode true (take n (drop p buf))) [
        | none ↦ thrown
        | some s ↦ ok (text s, some (p + n))
      ]

  -- Major type 7.
  unfoldable pub simple : List ℕ → ℕ → ℕ → Decoded
  simple buf ai p =
      if ai == 20
      then ok (boolean false, some p)
      else if ai == 21
      then ok (boolean true, some p)
      else if ai == 22 || ai == 23
      then ok (null, some p)
      else if ai == 27
      then if ltb (length buf) (p + 8) then thrown else elim (d.get_float64 (take 8 (drop p buf))) [
        | inl n ↦ ok (int n, some (p + 8))
        | inr x ↦ ok (float x, some (p + 8))
      ]
      else thrown

  -- `i < len` fails at once for a length that is no number.
  abbrev pub rounds : Option ℕ → ℕ
  rounds none = 0
  rounds (some n) = n

  -- The loops call `decodeItem` for each element, `item` here.
  unfoldable pub decode_items :
      (Option ℕ → Decoded) → ℕ → Option ℕ → ℕ → Result (Items F × Option ℕ)
  decode_items item zero cur n = stuck
  decode_items item (suc f) cur zero = ok (nil, cur)
  decode_items item (suc f) cur (suc n) =
      item cur >>= λ r. decode_items item f r.1 n >>= λ rest. ok (cons r.0 rest.0, rest.1)

  unfoldable pub decode_fields :
      (Option ℕ → Decoded) → ℕ → Option ℕ → ℕ → Fields F → Result (Fields F × Option ℕ)
  decode_fields item zero cur n acc = stuck
  decode_fields item (suc f) cur zero acc = ok (acc, cur)
  decode_fields item (suc f) cur (suc n) acc = item cur >>= λ k. elim k.0 [
    | text s ↦ item k.1 >>= λ v. decode_fields item f v.1 n (set_property acc s v.0)
    | _ ↦ thrown
  ]

  -- Behind the head byte: by the major type and the additional information.
  unfoldable pub decode_major : (Option ℕ → Decoded) → ℕ → List ℕ → ℕ → ℕ → ℕ → Decoded
  unfolding read_len unsigned negative byte_string text_string simple
  decode_major item f buf major ai p =
      if major == 0
      then read_len buf ai p >>= unsigned
      else if major == 1
      then read_len buf ai p >>= negative
      else if major == 2
      then read_len buf ai p >>= byte_string buf
      else if major == 3
      then read_len buf ai p >>= text_string buf
      else if major == 4
      then (read_len buf ai p >>= λ l.
          decode_items item f (some l.1) (rounds l.0) >>= λ r. ok (array r.0, r.1))
      else if major == 5
      then (read_len buf ai p >>= λ l.
          decode_fields item f (some l.1) (rounds l.0) end >>= λ r. ok (object r.0, r.1))
      else if major == 7
      then simple buf ai p
      else thrown

  -- `decodeItem`. At position NaN the byte is `undefined`, which reads as major type 0 with the
  -- value 0.
  unfoldable pub decode_item : ℕ → List ℕ → Option ℕ → Decoded
  decode_item zero buf p = stuck
  decode_item (suc f) buf none = ok (int (pos 0), none)
  decode_item (suc f) buf (some p) = elim (get_elem? buf p) [
    | none ↦ thrown
    | some ib ↦ decode_major (decode_item f buf) f buf (ib / 2 ^ 5) (ib % 2 ^ 5) (p + 1)
  ]

  -- `decodeCbor`, with fuel for its loops and its nesting.
  unfoldable pub decode_cbor : ℕ → List ℕ → Result (Cbor F)
  decode_cbor fuel buf = decode_item fuel buf (some 0) >>= λ r. elim r.1 [
    | none ↦ thrown
    | some e ↦ if e == length buf then ok r.0 else thrown
  ]

  -- `encodeItem`, for a value, the elements of an array, and the fields of an object.
  unfoldable mutual
    unfolding write_head count_items count_fields

    pub encode_item : Cbor F → List ℕ
    encode_item null = 0xf6 ∷ []
    encode_item undefined = 0xf6 ∷ []
    encode_item (boolean b) = (if b then 0xf5 else 0xf4) ∷ []
    encode_item (int (pos n)) = write_head 0 n
    encode_item (int (negsuc n)) = write_head 1 n
    encode_item (float x) = 0xfb ∷ d.set_float64 x
    encode_item (text s) = write_head 3 (length (utf8_encode s)) ++ utf8_encode s
    encode_item (bytes b) = write_head 2 (length b) ++ b
    encode_item (array xs) = write_head 4 (count_items xs) ++ encode_items xs
    encode_item (object fs) = write_head 5 (count_fields fs) ++ encode_fields fs

    pub encode_items : Items F → List ℕ
    encode_items nil = []
    encode_items (cons x xs) = encode_item x ++ encode_items xs

    pub encode_fields : Fields F → List ℕ
    encode_fields end = []
    encode_fields (field k v fs) =
        write_head 3 (length (utf8_encode k))
        ++ (utf8_encode k ++ (encode_item v ++ encode_fields fs))

  unfoldable pub encode_cbor : Cbor F → List ℕ
  encode_cbor v = encode_item v
