-- ===== src/Identity/Guard.antt =====
-- When the guards of identity.ts and capabilities.ts let identity be dropped.
use bare_network_inspect.Base.{◌≡◌, ◌≢◌, ◌↔◌, true, false, Option, none, JsString, arith}
use bare_network_inspect.Identity.{
  ChannelTopology, Transport, ChannelBinding, unicast_1to1, raw_udp, check_identity_drop,
  can_drop_identity, IdentityDropDescriptor, capabilities_allow_identity_drop, is_unicast,
  is_raw_udp, is_missing,
}

-- One channel that is one peer's, over a connection, with both peers known to it.
abbrev pub IsRecoverable : ChannelBinding → Type 0
IsRecoverable b =
    (b.topology ≡ unicast_1to1)
    × (b.transport ≢ raw_udp)
    × (b.resolve_src ≢ none)
    × (b.resolve_dst ≢ none)

unicast_eq : (t : ChannelTopology) → (is_unicast t ≡ true) ↔ (t ≡ unicast_1to1)
unicast_eq t = ground arith

udp_eq : (t : Transport) → (is_raw_udp t ≡ true) ↔ (t ≡ raw_udp)
udp_eq t = ground arith

missing_eq : (o : Option JsString) → (is_missing o ≡ true) ↔ (o ≡ none)
missing_eq o = ground arith

-- Identity may be dropped just on a channel with one remote peer, over a transport that is no raw UDP,
-- with a resolver for each of src and dst.
pub can_drop_identity_iff : (b : ChannelBinding) → (can_drop_identity b ≡ true) ↔ IsRecoverable b
unfolding can_drop_identity check_identity_drop
can_drop_identity_iff b = ground (
  arith,
  unicast_eq b.topology,
  udp_eq b.transport,
  missing_eq b.resolve_src,
  missing_eq b.resolve_dst,
)

-- What the transport-specific guard allows, the general one allows for every transport descriptor of
-- the same topology that is not multiplexed.
pub capabilities_allow_identity_drop-can_drop_identity :
    (b : ChannelBinding) (d : IdentityDropDescriptor)
    → d.topology ≡ b.topology
    → d.capabilities.is_multiplexed ≡ false
    → can_drop_identity b ≡ true
    → capabilities_allow_identity_drop d ≡ true
unfolding can_drop_identity check_identity_drop capabilities_allow_identity_drop
capabilities_allow_identity_drop-can_drop_identity b d e m h = ground arith
