-- ===== src/Redactor/Resolve.antt =====
-- An exported peer id is resolved on the device that exported it.
use bare_network_inspect.Base.{
  ◌≡◌, refl, sym, ap, ◌∙◌, arith, inl, inr, false, some, ◌++◌, JsString, ascii, Bool-cases,
  Option-cases, same, ℕ_discrete,
}
use bare_network_inspect.Registry.{PeerRegistry, broadcast, handle_for, is_same, peer_from_handle}
use bare_network_inspect.Registry.Peers.{peer_from_handle-handle_for, is_same_eq}
use bare_network_inspect.Redactor.{hash_peer, strip_prefix, resolve_peer}

strip_prefix_lem : (h : JsString) → strip_prefix (ascii "ph_" ++ h) ≡ h
unfolding strip_prefix is_same same ℕ_discrete
strip_prefix_lem h = refl

prefixed : (h : JsString) → is_same (ascii "ph_" ++ h) broadcast ≡ false
unfolding is_same same ℕ_discrete
prefixed h = refl

broadcast_lem : (reg : PeerRegistry) → resolve_peer reg broadcast ≡ some broadcast
unfolding resolve_peer is_same same ℕ_discrete
broadcast_lem reg = refl

broadcast_handle : (reg : PeerRegistry) → peer_from_handle reg broadcast ≡ some broadcast
unfolding peer_from_handle is_same same ℕ_discrete
broadcast_handle reg = refl

-- The exported form of a peer id resolves to the id, with the registry that hashing it left behind.
pub resolve_peer-hash_peer :
    (reg reg' : PeerRegistry) (peer hashed : JsString)
    → hash_peer reg peer ≡ some (reg', hashed)
    → resolve_peer reg' hashed ≡ some peer
unfolding hash_peer resolve_peer
resolve_peer-hash_peer reg reg' peer hashed h = elim (Bool-cases (is_same peer broadcast)) [
  | inl e ↦
      let q : broadcast ≡ hashed = ground arith in
      rw (← q) (broadcast_lem reg' ∙ ap some (sym (is_same_eq peer broadcast e)))
  | inr e ↦ elim (Option-cases (handle_for reg peer)) [
    | inl g ↦ absurd (ground arith)
    | inr ((r, handle), g) ↦
        let q : ascii "ph_" ++ handle ≡ hashed = ground arith in
        let u : r ≡ reg' = ground arith in
        let k =
          peer_from_handle-handle_for reg r peer handle broadcast broadcast g
            (broadcast_handle reg) in
        rw (← q, ← u, prefixed handle, strip_prefix_lem handle) k.0
  ]
]
