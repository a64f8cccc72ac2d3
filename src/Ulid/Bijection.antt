-- ===== src/Ulid/Bijection.antt =====
-- The two conversions of ulid.ts undo each other.
use bare_network_inspect.Base.{
  ℕ, zero, suc, ◌+◌, ◌-◌, ◌^◌, ◌≤◌, ◌<◌, ◌≡◌, refl, ap, ◌∙◌, inl, inr, Option, none, some, List, [],
  ◌∷◌, map, Bool, true, false, ◌&&◌, append-nil, arith, length, get_or, All, ◌==◌, JsString,
  Option-cases, dec_lt,
}
use bare_network_inspect.Ulid.{
  crockford, index_from, decode_map, from_base, to_base, decode_chars, ulid_to_bytes, encode_char,
  bytes_to_ulid,
}
use bare_network_inspect.Ulid.Digits.{
  IsBase-32, IsBase-256, from_base-to_base, to_base-from_base, length-to_base, to_base-All,
  from_base_below,
}

index_from-get_or :
    (xs : JsString) (i ch d : ℕ)
    → index_from xs i ch ≡ some d
    → (i ≤ d) × (d < i + length xs) × (get_or xs (d - i) 0 ≡ ch)
unfolding index_from
index_from-get_or [] i ch d h = ground arith
index_from-get_or (x ∷ xs) i ch d h = elim (dec_lt i d) [
  | yes p ↦ rw (gap i d p) (ground (arith, index_from-get_or xs (suc i) ch d))
  | no p ↦ ground (
    arith,
    index_from-get_or xs (suc i) ch d,
    ap (λ k. get_or (x ∷ xs) k 0) {x = i - i} {y = 0} (omega arith),
  )
]
  where
    gap : (i d : ℕ) → i < d → d - i ≡ suc (d - suc i)
    gap i d p = omega arith

encode_char-decode_map : (ch d : ℕ) → decode_map ch ≡ some d → (d < 32) × (encode_char d ≡ ch)
unfolding decode_map encode_char
encode_char-decode_map ch d h = ground (arith, index_from-get_or crockford 0 ch d h)

-- `p` holds at all numbers below `n`.
abbrev all_below : ℕ → (ℕ → Bool) → Bool
all_below zero p = true
all_below (suc n) p = p n && all_below n p

all_below_lem : (n : ℕ) (p : ℕ → Bool) (k : ℕ) → all_below n p ≡ true → k < n → p k ≡ true
all_below_lem zero p k h l = absurd (omega arith)
all_below_lem (suc n) p k h l = elim (dec_lt k n) [
  | yes q ↦ all_below_lem n p k (ground arith) q
  | no q ↦ ap p {x = k} {y = n} (omega arith) ∙ ground arith
]

-- `o` is the number `d`.
abbrev finds : Option ℕ → ℕ → Bool
finds none d = false
finds (some e) d = e == d

finds_eq : (o : Option ℕ) (d : ℕ) → finds o d ≡ true → o ≡ some d
finds_eq o d h = ground arith

decode_map-encode_char : (d : ℕ) → d < 32 → decode_map (encode_char d) ≡ some d
unfolding decode_map encode_char index_from
decode_map-encode_char d h =
    finds_eq (decode_map (encode_char d)) d
      (all_below_lem 32 (λ k. finds (decode_map (encode_char k)) k) d refl h)

map-decode_chars :
    (s : JsString) (ds : List ℕ)
    → decode_chars s ≡ some ds
    → (map encode_char ds ≡ s) × (length ds ≡ length s) × All (λ d. d < 32) ds
unfolding decode_chars
map-decode_chars [] ds h = ground arith
map-decode_chars (ch ∷ s) ds h = elim (Option-cases (decode_map ch)) [
  | inl e ↦ ground arith
  | inr (d, e) ↦ elim (Option-cases (decode_chars s)) [
    | inl f ↦ ground arith
    | inr (es, f) ↦ ground (arith, map-decode_chars s es f, encode_char-decode_map ch d e)
  ]
]

decode_chars-map :
    (ds : List ℕ) → All (λ d. d < 32) ds → decode_chars (map encode_char ds) ≡ some ds
unfolding decode_chars
decode_chars-map [] h = refl
decode_chars-map (d ∷ ds) h = ground (arith, decode_map-encode_char d h.0, decode_chars-map ds h.1)

pub length-map : (f : ℕ → ℕ) (xs : List ℕ) → length (map f xs) ≡ length xs
length-map f [] = refl
length-map f (x ∷ xs) = ap suc (length-map f xs)

-- The bytes of a number below 2^128 and back.
bytes_number : (v : ℕ) → v < 2 ^ 128 → from_base 256 0 (to_base 256 16 v []) ≡ v
unfolding from_base
bytes_number v h = from_base-to_base 256 IsBase-256 16 v [] (omega arith)

number_digits : (v : ℕ) → v < 2 ^ 128 → from_base 32 0 (to_base 32 26 v []) ≡ v
unfolding from_base
number_digits v h = from_base-to_base 32 IsBase-32 26 v [] (omega arith)

-- The 26 digits of the number that they denote.
digits_number :
    (ds : List ℕ)
    → length ds ≡ 26
    → All (λ d. d < 32) ds
    → to_base 32 26 (from_base 32 0 ds) [] ≡ ds
unfolding to_base
digits_number ds l h =
    ap (λ n. to_base 32 n (from_base 32 0 ds) []) {x = 26} {y = length ds + 0} (omega arith)
    ∙ to_base-from_base 32 IsBase-32 ds 0 0 [] h
    ∙ append-nil ds

bytes_digits :
    (bs : List ℕ)
    → length bs ≡ 16
    → All (λ b. b < 256) bs
    → to_base 256 16 (from_base 256 0 bs) [] ≡ bs
unfolding to_base
bytes_digits bs l h =
    ap (λ n. to_base 256 n (from_base 256 0 bs) []) {x = 16} {y = length bs + 0} (omega arith)
    ∙ to_base-from_base 256 IsBase-256 bs 0 0 [] h
    ∙ append-nil bs

bytes_below : (bs : List ℕ) → length bs ≡ 16 → All (λ b. b < 256) bs → from_base 256 0 bs < 2 ^ 128
bytes_below bs l h = simp (l) at (from_base_below 256 IsBase-256 bs 0 1 h (omega arith))

-- A ULID that converts to bytes, which are sixteen, is read back from them as it was.
pub bytes_to_ulid-ulid_to_bytes :
    (s : JsString) (bytes : List ℕ)
    → ulid_to_bytes s ≡ some bytes
    → (length bytes ≡ 16) × (bytes_to_ulid bytes ≡ some s)
unfolding ulid_to_bytes bytes_to_ulid
bytes_to_ulid-ulid_to_bytes s bytes h = elim (Option-cases (decode_chars s)) [
  | inl e ↦ ground arith
  | inr (ds, e) ↦ ground (
    arith,
    map-decode_chars s ds e,
    bytes_number (from_base 32 0 ds),
    digits_number ds,
    length-to_base 256 IsBase-256 16 (from_base 32 0 ds) [],
  )
]

-- Any sixteen bytes are those of a ULID of 26 characters, which converts back to them.
pub ulid_to_bytes-bytes_to_ulid :
    (bytes : List ℕ)
    → length bytes ≡ 16
    → All (λ b. b < 256) bytes
    → (s : JsString) × (bytes_to_ulid bytes ≡ some s)
      × (length s ≡ 26)
      × (ulid_to_bytes s ≡ some bytes)
unfolding ulid_to_bytes bytes_to_ulid
ulid_to_bytes-bytes_to_ulid bytes l h =
    let v = from_base 256 0 bytes in
    let ds = to_base 32 26 v [] in
    let n = length-map encode_char ds ∙ length-to_base 32 IsBase-32 26 v [] in
    let m = number_digits v (bytes_below bytes l h) in
    (
      map encode_char ds,
      ground arith,
      n,
      ground (
        arith,
        n,
        m,
        decode_chars-map ds (to_base-All 32 IsBase-32 26 v [] tt),
        bytes_below bytes l h,
        bytes_digits bytes l h,
      ),
    )
