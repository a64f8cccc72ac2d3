-- ===== src/Ulid/Tests.antt =====
-- Runs of the conversions of ulid.ts.
use bare_network_inspect.Base.{
  ℕ, ◌<◌, ◌≡◌, refl, none, some, List, arith, length, replicate, All, JsString, ascii,
}
use bare_network_inspect.Ulid.{
  ulid_to_bytes, bytes_to_ulid, decode_chars, decode_map, index_from, from_base, to_base,
}
use bare_network_inspect.Ulid.Bijection.{bytes_to_ulid-ulid_to_bytes, ulid_to_bytes-bytes_to_ulid}

abbrev ones : List ℕ
ones = replicate 16 255

abbrev sevens : List ℕ
sevens = replicate 16 7

abbrev largest : JsString
largest = ascii "7ZZZZZZZZZZZZZZZZZZZZZZZZZ"

largest_bytes : ulid_to_bytes largest ≡ some ones
unfolding ulid_to_bytes decode_chars decode_map index_from from_base to_base
largest_bytes = refl

-- A first character above 7, a character that is no Crockford character, and a short string.
refused :
    (ulid_to_bytes (ascii "8ZZZZZZZZZZZZZZZZZZZZZZZZZ") ≡ none)
    × (ulid_to_bytes (ascii "7ZZZZZZZZZZZZZZZZZZZZZZZZU") ≡ none)
    × (ulid_to_bytes (ascii "7ZZ") ≡ none)
unfolding ulid_to_bytes decode_chars decode_map index_from from_base to_base
refused = (refl, refl, refl)

bytes_to_ulid-ulid_to_bytes_example : (length ones ≡ 16) × (bytes_to_ulid ones ≡ some largest)
bytes_to_ulid-ulid_to_bytes_example = bytes_to_ulid-ulid_to_bytes largest ones largest_bytes

ulid_to_bytes-bytes_to_ulid_example :
    (s : JsString) × (bytes_to_ulid sevens ≡ some s)
    × (length s ≡ 26)
    × (ulid_to_bytes s ≡ some sevens)
ulid_to_bytes-bytes_to_ulid_example = ulid_to_bytes-bytes_to_ulid sevens refl bounded
  where
    bounded : All (λ b. b < 256) sevens
    bounded = ground arith
