-- ===== src/Registry.antt =====
-- packages/bare-protocol/src/registry.ts: the tables that make the compact encodings lossless.
-- A method that can throw returns `none` for its Error, and the new state with the value otherwise.
pub mod Methods
pub mod Peers
mod Tests
use bare_network_inspect.Base.{
  ℕ, ◌+◌, ◌-◌, ◌*◌, ◌/◌, ◌%◌, ◌^◌, Bool, true, false, Option, none, some, List, [], ◌∷◌, ◌++◌, map,
  length, get_elem?, drop, ltb, if◌then◌else◌, JsString, same, ascii, map_get, map_set,
}
use bare_network_inspect.Utf8.{utf8_encode}
use bare_network_inspect.Sampler.{bit_xor}
use bare_network_inspect.Ulid.{from_base, to_base, encode_char}

pub record MethodRegistry : Type 0 where
  pub s2i : List (JsString × ℕ)
  pub i2s : List JsString

unfoldable pub intern : MethodRegistry → JsString → MethodRegistry × ℕ
intern r method = elim (map_get same method r.s2i) [
  | some id ↦ (r, id)
  | none ↦
      let id = length r.i2s in
      (record r { s2i = map_set same method id r.s2i; i2s = r.i2s ++ (method ∷ []) }, id)
]

unfoldable pub seed_from : MethodRegistry → List JsString → MethodRegistry
seed_from r [] = r
seed_from r (m ∷ seed) = seed_from (intern r m).0 seed

-- The constructor.
unfoldable pub new_methods : List JsString → MethodRegistry
new_methods seed = seed_from (record { s2i = []; i2s = [] }) seed

unfoldable pub lookup : MethodRegistry → ℕ → Option JsString
lookup r id = get_elem? r.i2s id

-- One round of `fnv1a64` on the two 32-bit halves. `lo ^= b` leaves a signed word, and the carry of a
-- negative product is less by the prime's low part, which the last summand says modulo 2^32.
unfoldable pub fnv_round : ℕ × ℕ → ℕ → ℕ × ℕ
fnv_round h b =
    let lo = bit_xor 32 h.1 b in
    let signed = if ltb lo (2 ^ 31) then 0 else 2 ^ 32 - 0x1b3 in
    let hi = h.0 * 0x1b3 + lo * 0x100 + lo * 0x1b3 / 2 ^ 32 + signed in
    (hi % 2 ^ 32, (lo * 0x1b3) % 2 ^ 32)

unfoldable pub fnv_from : ℕ × ℕ → List ℕ → ℕ × ℕ
fnv_from h [] = h
fnv_from h (b ∷ bytes) = fnv_from (fnv_round h b) bytes

-- The four bytes of a 32-bit word, the high one first, are its digits in base 256.
unfoldable pub fnv1a64 : JsString → List ℕ
fnv1a64 s =
    let h = fnv_from (0xcbf29ce4, 0x84222325) (utf8_encode s) in
    to_base 256 4 h.0 (to_base 256 4 h.1 [])

unfoldable pub to_base32 : List ℕ → ℕ → JsString
to_base32 bytes chars = map encode_char (to_base 32 chars (from_base 256 0 bytes) [])

-- A hexadecimal digit of `toString(16)`.
unfoldable pub hex_digit : ℕ → ℕ
hex_digit d = if ltb d 10 then 48 + d else 87 + d

unfoldable pub key_of : List ℕ → JsString
key_of [] = []
key_of (b ∷ bytes) = hex_digit (b / 16) ∷ hex_digit (b % 16) ∷ key_of bytes

pub record PeerRegistry : Type 0 where
  pub by_handle : List (JsString × JsString)
  pub by_hash : List (JsString × JsString)

abbrev pub broadcast : JsString
broadcast = ascii "*"

-- `===` as a Boolean.
unfoldable pub is_same : JsString → JsString → Bool
is_same a b = elim (same a b) [ yes _ ↦ true | no _ ↦ false ]

-- Whether the entry `prev` refuses the peer, in `handleFor` and `hashFor`.
unfoldable pub collides : Option JsString → JsString → Bool
collides none peer = false
collides (some prev) peer = if is_same prev peer then false else true

-- The handle that a peer gets.
unfoldable pub handle_of : JsString → JsString
handle_of peer = to_base32 (drop 2 (fnv1a64 peer)) 8

unfoldable pub handle_for : PeerRegistry → JsString → Option (PeerRegistry × JsString)
handle_for r peer =
    if is_same peer broadcast
    then some (r, broadcast)
    else let handle = handle_of peer in
      if collides (map_get same handle r.by_handle) peer
      then none
      else some (record r { by_handle = map_set same handle peer r.by_handle }, handle)

unfoldable pub hash_for : PeerRegistry → JsString → Option (PeerRegistry × List ℕ)
hash_for r peer =
    if is_same peer broadcast
    then some (r, [])
    else let hash = drop 2 (fnv1a64 peer) in
      let key = key_of hash in
      if collides (map_get same key r.by_hash) peer
      then none
      else some (record r { by_hash = map_set same key peer r.by_hash }, hash)

unfoldable pub peer_from_handle : PeerRegistry → JsString → Option JsString
peer_from_handle r handle =
    if is_same handle broadcast then some broadcast else map_get same handle r.by_handle

unfoldable pub peer_from_hash : PeerRegistry → List ℕ → Option JsString
peer_from_hash r [] = some broadcast
peer_from_hash r (b ∷ hash) = map_get same (key_of (b ∷ hash)) r.by_hash
