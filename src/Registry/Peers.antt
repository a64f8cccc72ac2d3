-- ===== src/Registry/Peers.antt =====
-- The peer registry of registry.ts is lossless, whatever the hash.
use bare_network_inspect.Base.{
  ℕ, ◌<◌, ◌≡◌, refl, ap, ◌∙◌, inl, inr, true, false, Option, some, List, [], ◌∷◌, length, arith,
  drop, JsString, same, map_get, map_set, map_get-set, map_get-set_self, length-drop, Bool-cases,
}
use bare_network_inspect.Ulid.{to_base, from_base, encode_char}
use bare_network_inspect.Ulid.Digits.{length-to_base, IsBase-32, IsBase-256}
use bare_network_inspect.Ulid.Bijection.{length-map}
use bare_network_inspect.Utf8.{utf8_encode}
use bare_network_inspect.Registry.{
  PeerRegistry, is_same, collides, broadcast, handle_of, handle_for, hash_for, peer_from_handle,
  peer_from_hash, to_base32, fnv1a64, fnv_from, key_of,
}

pub is_same_eq : (a b : JsString) → is_same a b ≡ true → a ≡ b
unfolding is_same
is_same_eq a b h = ground arith

pub is_same_refl : (a : JsString) → is_same a a ≡ true
unfolding is_same
is_same_refl a = ground arith

pub length-handle_of : (p : JsString) → length (handle_of p) ≡ 8
unfolding handle_of to_base32
length-handle_of p =
    length-map encode_char (to_base 32 8 (from_base 256 0 (drop 2 (fnv1a64 p))) [])
    ∙ length-to_base 32 IsBase-32 8 (from_base 256 0 (drop 2 (fnv1a64 p))) []

handle_of_ne : (p : JsString) → is_same (handle_of p) broadcast ≡ false
handle_of_ne p = elim (Bool-cases (is_same (handle_of p) broadcast)) [
  | inl e ↦
      let k : length (handle_of p) ≡ length broadcast =
        ap length (is_same_eq (handle_of p) broadcast e) in
      absurd (omega (arith, k, length-handle_of p))
  | inr e ↦ e
]

no_collision : (o : Option JsString) (p q : JsString) → collides o p ≡ false → o ≡ some q → q ≡ p
unfolding collides
no_collision o p q h e = ground (arith, is_same_eq q p)

-- Where a handle is given out, the registry reads it back as the peer, the broadcast sign too, and
-- every handle that it read before it reads as before.
pub peer_from_handle-handle_for :
    (r r' : PeerRegistry) (peer handle : JsString) (g q : JsString)
    → handle_for r peer ≡ some (r', handle)
    → peer_from_handle r g ≡ some q
    → (peer_from_handle r' handle ≡ some peer) × (peer_from_handle r' g ≡ some q)
unfolding handle_for peer_from_handle
peer_from_handle-handle_for r r' peer handle g q h k = ground (
  arith,
  map_get-set same (handle_of peer) (handle_of peer) peer r.by_handle,
  map_get-set same (handle_of peer) g peer r.by_handle,
  handle_of_ne peer,
  is_same_eq peer broadcast,
  is_same_refl broadcast,
  no_collision (map_get same (handle_of peer) r.by_handle) peer q,
)

pub length-fnv1a64 : (p : JsString) → length (drop 2 (fnv1a64 p)) ≡ 6
unfolding fnv1a64
length-fnv1a64 p =
    let h = fnv_from (0xcbf29ce4, 0x84222325) (utf8_encode p) in
    omega (
      arith,
      length-drop 2 (to_base 256 4 h.0 (to_base 256 4 h.1 [])),
      length-to_base 256 IsBase-256 4 h.0 (to_base 256 4 h.1 []),
      length-to_base 256 IsBase-256 4 h.1 [],
    )

peer_from_hash_some :
    (r : PeerRegistry) (g : List ℕ)
    → 0 < length g
    → peer_from_hash r g ≡ map_get same (key_of g) r.by_hash
unfolding peer_from_hash
peer_from_hash_some r [] h = absurd (omega arith)
peer_from_hash_some r (b ∷ g) h = refl

-- The case of a peer that is not the broadcast sign.
hash_for_peer :
    (r r' : PeerRegistry) (peer : JsString) (hash : List ℕ)
    → hash_for r peer ≡ some (r', hash)
    → is_same peer broadcast ≡ false
    → (hash ≡ drop 2 (fnv1a64 peer))
      × (r'.by_hash ≡ map_set same (key_of hash) peer r.by_hash)
      × (collides (map_get same (key_of hash) r.by_hash) peer ≡ false)
unfolding hash_for
hash_for_peer r r' peer hash h n = ground arith

-- A hash reads back as its peer, and another key as before.
read_hash :
    (m m' : List (JsString × JsString)) (peer : JsString) (key j q : JsString)
    → m' ≡ map_set same key peer m
    → collides (map_get same key m) peer ≡ false
    → map_get same j m ≡ some q
    → map_get same j m' ≡ some q
read_hash m m' peer key j q e c k =
    ground (arith, map_get-set same key j peer m, no_collision (map_get same key m) peer q c)

read_hash_all :
    (r r' : PeerRegistry) (peer : JsString) (key : JsString) (g : List ℕ) (q : JsString)
    → r'.by_hash ≡ map_set same key peer r.by_hash
    → collides (map_get same key r.by_hash) peer ≡ false
    → peer_from_hash r g ≡ some q
    → peer_from_hash r' g ≡ some q
unfolding peer_from_hash
read_hash_all r r' peer key [] q e c k = k
read_hash_all r r' peer key (b ∷ g) q e c k =
    read_hash r.by_hash r'.by_hash peer key (key_of (b ∷ g)) q e c k

hash_for-broadcast :
    (r r' : PeerRegistry) (peer : JsString) (hash : List ℕ)
    → hash_for r peer ≡ some (r', hash)
    → is_same peer broadcast ≡ true
    → (peer_from_hash r' hash ≡ some peer) × (r' ≡ r)
unfolding hash_for peer_from_hash
hash_for-broadcast r r' peer hash h e = ground (arith, is_same_eq peer broadcast e)

-- The same of the hashes that the binary tier writes: where one is given out the registry reads it
-- back as the peer, the empty one as the broadcast sign, and every hash that it read before it reads
-- as before.
pub peer_from_hash-hash_for :
    (r r' : PeerRegistry) (peer : JsString) (hash g : List ℕ) (q : JsString)
    → hash_for r peer ≡ some (r', hash)
    → peer_from_hash r g ≡ some q
    → (peer_from_hash r' hash ≡ some peer) × (peer_from_hash r' g ≡ some q)
peer_from_hash-hash_for r r' peer hash g q h k = elim (Bool-cases (is_same peer broadcast)) [
  | inl e ↦
      let s = hash_for-broadcast r r' peer hash h e in (s.0, ap (λ z. peer_from_hash z g) s.1 ∙ k)
  | inr e ↦
      let s = hash_for_peer r r' peer hash h e in
      (
        peer_from_hash_some r' hash (omega (arith, length-fnv1a64 peer, ap length s.0))
            ∙ ap (map_get same (key_of hash)) s.1
            ∙ map_get-set_self same (key_of hash) peer r.by_hash,
        read_hash_all r r' peer (key_of hash) g q s.1 s.2 k,
      )
]
