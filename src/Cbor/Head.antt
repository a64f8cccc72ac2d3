-- ===== src/Cbor/Head.antt =====
-- The head of an item of cbor.ts: what `writeHead` writes is what `readLen` reads.
use bare_network_inspect.Base.{
  ℕ, ◌+◌, ◌*◌, ◌/◌, ◌%◌, ◌^◌, ◌≤◌, ◌<◌, ◌≡◌, refl, sym, ap, ◌∙◌, inr, some, List, ◌++◌, arith,
  dec_lt, ltb, if◌then◌else◌, length, get_elem?, get_or, drop, get_or-drop, get_elem?-drop,
}
use bare_network_inspect.Cbor.{Double, ok, write_head, word32, read_len}

-- What the wire format relies on of the language's doubles.
pub record IsIeee {F : Type 0} (d : Double F) : Type 0 where
  pub exact : (n : ℕ) → n ≤ 2 ^ 53 → d.round n ≡ n
  pub length-set : (x : F) → length (d.set_float64 x) ≡ 8
  pub get-set : (x : F) → d.get_float64 (d.set_float64 x) ≡ inr x

-- The additional information of the head for `n`.
unfoldable pub short_form : ℕ → ℕ
short_form n =
    if ltb n 24
    then n
    else if ltb n 0x100
    then 24
    else if ltb n 0x10000
    then 25
    else if ltb n 0x100000000
    then 26
    else 27

pub short_form-lt : (n : ℕ) → short_form n < 28
unfolding short_form
short_form-lt n = ground arith

-- The head is the byte of the major type and the form, and the bytes of the argument.
pub head_byte :
    (major n : ℕ) (rest : List ℕ)
    → get_elem? (write_head major n ++ rest) 0 ≡ some (major * 32 + short_form n)
unfolding write_head short_form
head_byte major n rest = ground arith

head_or :
    (major n : ℕ) (rest : List ℕ)
    → get_or (write_head major n ++ rest) 0 0 ≡ major * 32 + short_form n
unfolding write_head short_form
head_or major n rest = ground arith

pub length-write_head :
    (major n : ℕ) → (0 < length (write_head major n)) × (length (write_head major n) ≤ 9)
unfolding write_head
length-write_head major n = ground arith

pub length-write_head_short : (major n : ℕ) → n < 2 ^ 32 → length (write_head major n) ≤ 5
unfolding write_head
length-write_head_short major n h = ground arith

module _ (buf xs : List ℕ) (p : ℕ) (e : drop p buf ≡ xs) where
  pub elem_at : (q i : ℕ) → q ≡ p + i → get_elem? buf q ≡ get_elem? xs i
  elem_at q i h = ap (get_elem? buf) h ∙ sym (get_elem?-drop p i buf) ∙ ap (λ l. get_elem? l i) e

  pub or_at : (q i : ℕ) → q ≡ p + i → get_or buf q 0 ≡ get_or xs i 0
  or_at q i h = ap (λ k. get_or buf k 0) h ∙ sym (get_or-drop p i buf 0) ∙ ap (λ l. get_or l i 0) e

  pub word_at : (q i : ℕ) → q ≡ p + i → word32 buf q ≡ word32 xs i
  unfolding word32
  word_at q i h = ground (
    arith,
    elem_at (q + 3) (i + 3) (omega arith),
    or_at q i h,
    or_at (q + 1) (i + 1) (omega arith),
    or_at (q + 2) (i + 2) (omega arith),
  )

high_word :
    (n : ℕ)
    → n ≤ 2 ^ 53
    → n / 4294967296 / 16777216 % 256 * 16777216
        + n / 4294967296 / 65536 % 256 * 65536
        + n / 4294967296 / 256 % 256 * 256
        + n / 4294967296 % 256
      ≡ n / 4294967296
high_word n h = omega arith

low_word :
    (n : ℕ)
    → n < 2 ^ 32
    → n / 16777216 % 256 * 16777216 + n / 65536 % 256 * 65536 + n / 256 % 256 * 256 + n % 256 ≡ n
low_word n h = omega arith

module _ {F : Type 0} (d : Double F) (ieee : IsIeee d) where
  pub read_len-short_form :
      (major n p : ℕ) (buf rest : List ℕ)
      → n ≤ 2 ^ 53
      → drop p buf ≡ write_head major n ++ rest
      → read_len d buf (short_form n) (p + 1) ≡ ok (some n, p + length (write_head major n))
  unfolding read_len word32 write_head short_form
  read_len-short_form major n p buf rest h e = elim (dec_lt n 24) [
    | yes a ↦ ground arith
    | no a ↦ elim (dec_lt n 0x100) [
      | yes b ↦ ground (arith, elem_at buf _ p e (p + 1) 1 refl)
      | no b ↦ elim (dec_lt n 0x10000) [
        | yes c ↦
            ground
              (arith, or_at buf _ p e (p + 1) 1 refl, or_at buf _ p e (p + 1 + 1) 2 (omega arith))
        | no c ↦ elim (dec_lt n 0x100000000) [
          | yes g ↦ ground (arith, low_word n g, word_at buf _ p e (p + 1) 1 refl)
          | no g ↦ ground (
            arith,
            high_word n h,
            low_word (n % 4294967296) (omega arith),
            word_at buf _ p e (p + 1) 1 refl,
            word_at buf _ p e (p + 1 + 4) 5 (omega arith),
            ieee.exact n h,
          )
        ]
      ]
    ]
  ]

  -- Of a head that `writeHead` wrote for a major type below 8 and an argument up to 2 ^ 53, the first
  -- byte has the major type in its high three bits; with its low five, `readLen` reads the argument
  -- and ends behind the head.
  pub read_len-write_head :
      (major n p : ℕ) (buf rest : List ℕ)
      → major < 8
      → n ≤ 2 ^ 53
      → drop p buf ≡ write_head major n ++ rest
      → (get_or buf p 0 / 32 ≡ major)
        × (read_len d buf (get_or buf p 0 % 32) (p + 1)
            ≡ ok (some n, p + length (write_head major n)))
  read_len-write_head major n p buf rest m h e =
      let first : get_or buf p 0 ≡ major * 32 + short_form n =
        or_at buf _ p e p 0 (omega arith) ∙ head_or major n rest in
      let low : get_or buf p 0 % 32 ≡ short_form n = omega (arith, first, short_form-lt n) in
      (omega (arith, first, short_form-lt n), rw low (read_len-short_form major n p buf rest h e))
