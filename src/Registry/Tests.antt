-- ===== src/Registry/Tests.antt =====
-- Runs of the tables of registry.ts.
use bare_network_inspect.Base.{
  ℕ, ◌≡◌, refl, none, some, List, [], ◌∷◌, ℕ_discrete, JsString, same, ascii, map_get, map_set,
}
use bare_network_inspect.Ulid.{from_base, to_base, encode_char}
use bare_network_inspect.Sampler.{bit_xor}
use bare_network_inspect.Utf8.{utf8_encode, code_point_bytes}
use bare_network_inspect.Registry.{
  PeerRegistry, new_methods, seed_from, intern, lookup, fnv1a64, fnv_from, fnv_round, handle_for,
  handle_of, to_base32, key_of, hex_digit, is_same, collides, broadcast, peer_from_handle,
}
use bare_network_inspect.Registry.Methods.{lookup-intern}
use bare_network_inspect.Registry.Peers.{peer_from_handle-handle_for}

abbrev empty : PeerRegistry
empty = record { by_handle = []; by_hash = [] }

-- The published FNV-1a hash of "a" is af63dc4c8601ec8c; the signed low half makes it another.
hash_a : fnv1a64 (ascii "a") ≡ 0xaf ∷ 0x63 ∷ 0xda ∷ 0x99 ∷ 0x86 ∷ 0x01 ∷ 0xec ∷ 0x8c ∷ []
unfolding fnv1a64 fnv_from fnv_round bit_xor to_base utf8_encode code_point_bytes
hash_a = refl

key_a : key_of (0 ∷ 0x1f ∷ 0xa9 ∷ []) ≡ ascii "001fa9"
unfolding key_of hex_digit
key_a = refl

lookup-intern_example :
    let r = intern (new_methods (ascii "get" ∷ [])) (ascii "put") in
    lookup (seed_from r.0 (ascii "del" ∷ [])) r.1 ≡ some (ascii "put")
lookup-intern_example = lookup-intern (ascii "get" ∷ []) (ascii "del" ∷ []) (ascii "put")

abbrev peer_a : JsString
peer_a = ascii "a"

abbrev with_handle : PeerRegistry
with_handle = record { by_handle = (handle_of peer_a, peer_a) ∷ []; by_hash = [] }

abbrev hash_bytes : List ℕ
hash_bytes = 0xda ∷ 0x99 ∷ 0x86 ∷ 0x01 ∷ 0xec ∷ 0x8c ∷ []

abbrev with_hash : PeerRegistry
with_hash = record { by_handle = []; by_hash = (key_of hash_bytes, peer_a) ∷ [] }

-- Another peer with the same handle is refused.
collision :
    handle_for (record { by_handle = (handle_of peer_a, ascii "b") ∷ []; by_hash = [] }) peer_a
    ≡ none
unfolding handle_for collides map_get map_set is_same same ℕ_discrete handle_of to_base32 fnv1a64
    fnv_from fnv_round bit_xor to_base from_base encode_char utf8_encode code_point_bytes
collision = refl

peer_from_handle-handle_for_example :
    (peer_from_handle with_handle (handle_of peer_a) ≡ some peer_a)
    × (peer_from_handle with_handle broadcast ≡ some broadcast)
unfolding handle_for peer_from_handle collides map_get map_set is_same same ℕ_discrete
peer_from_handle-handle_for_example =
    peer_from_handle-handle_for empty with_handle peer_a (handle_of peer_a) broadcast broadcast refl
      refl
