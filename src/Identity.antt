-- ===== src/Identity.antt =====
-- packages/bare-protocol/src/identity.ts and packages/bare-probe/transport/capabilities.ts: when src
-- and dst may be left out of an envelope.
-- A resolver is the peer id that it returns, or `none` where the binding has no function there.
pub mod Guard
mod Tests
use bare_network_inspect.Base.{
  Bool, true, false, not, ◌||◌, Option, none, some, if◌then◌else◌, JsString,
}

pub data ChannelTopology : Type 0 where
  unicast_1to1 : ChannelTopology
  multiplexed : ChannelTopology
  relayed : ChannelTopology
  fanout : ChannelTopology

pub data Transport : Type 0 where
  libp2p : Transport
  webrtc_dc : Transport
  raw_tcp : Transport
  raw_udp : Transport

pub record ChannelBinding : Type 0 where
  pub topology : ChannelTopology
  pub transport : Transport
  pub resolve_src : Option JsString
  pub resolve_dst : Option JsString

-- The three reasons of `IdentityDropCheck`.
pub data Reason : Type 0 where
  many_peers : ChannelTopology → Reason
  connectionless : Reason
  unresolvable : Reason

abbrev pub is_unicast : ChannelTopology → Bool
is_unicast unicast_1to1 = true
is_unicast multiplexed = false
is_unicast relayed = false
is_unicast fanout = false

abbrev pub is_raw_udp : Transport → Bool
is_raw_udp libp2p = false
is_raw_udp webrtc_dc = false
is_raw_udp raw_tcp = false
is_raw_udp raw_udp = true

-- `typeof resolve !== 'function'`.
abbrev pub is_missing : Option JsString → Bool
is_missing none = true
is_missing (some p) = false

-- The reason for a refusal, `none` for `{ ok: true }`; the throwing form throws just on a reason.
unfoldable pub check_identity_drop : ChannelBinding → Option Reason
check_identity_drop b =
    if not (is_unicast b.topology)
    then some (many_peers b.topology)
    else if is_raw_udp b.transport
    then some connectionless
    else if is_missing b.resolve_src || is_missing b.resolve_dst
    then some unresolvable
    else none

unfoldable pub can_drop_identity : ChannelBinding → Bool
can_drop_identity b = elim (check_identity_drop b) [ none ↦ true | some reason ↦ false ]

pub data Orientation : Type 0 where
  message : Orientation
  stream : Orientation

pub record TransportCapabilities : Type 0 where
  pub orientation : Orientation
  pub reliable : Bool
  pub ordered : Bool
  pub is_multiplexed : Bool
  pub intrinsic_identity : Bool

abbrev pub webrtc_dc_capabilities : TransportCapabilities
webrtc_dc_capabilities = record {
  orientation = message;
  reliable = true;
  ordered = true;
  is_multiplexed = false;
  intrinsic_identity = false;
}

abbrev pub websocket_capabilities : TransportCapabilities
websocket_capabilities = record {
  orientation = message;
  reliable = true;
  ordered = true;
  is_multiplexed = false;
  intrinsic_identity = false;
}

abbrev pub hyperswarm_capabilities : TransportCapabilities
hyperswarm_capabilities = record {
  orientation = stream;
  reliable = true;
  ordered = true;
  is_multiplexed = false;
  intrinsic_identity = true;
}

pub record IdentityDropDescriptor : Type 0 where
  pub capabilities : TransportCapabilities
  pub topology : ChannelTopology

unfoldable pub capabilities_allow_identity_drop : IdentityDropDescriptor → Bool
capabilities_allow_identity_drop d =
    if not (is_unicast d.topology)
    then false
    else if d.capabilities.is_multiplexed
    then false
    else true
