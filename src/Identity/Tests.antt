-- ===== src/Identity/Tests.antt =====
-- Runs of the guards of identity.ts and capabilities.ts.
use bare_network_inspect.Base.{◌≡◌, refl, ◌↔◌, true, false, none, some, ascii}
use bare_network_inspect.Identity.{
  ChannelBinding, unicast_1to1, fanout, webrtc_dc, raw_udp, many_peers, connectionless,
  unresolvable, check_identity_drop, can_drop_identity, IdentityDropDescriptor,
  capabilities_allow_identity_drop, hyperswarm_capabilities, webrtc_dc_capabilities,
  websocket_capabilities,
}
use bare_network_inspect.Identity.Guard.{IsRecoverable, can_drop_identity_iff}

abbrev direct : ChannelBinding
direct = record {
  topology = unicast_1to1;
  transport = webrtc_dc;
  resolve_src = some (ascii "a");
  resolve_dst = some (ascii "b");
}

abbrev descriptor : IdentityDropDescriptor
descriptor = record { capabilities = hyperswarm_capabilities; topology = unicast_1to1 }

refused :
    (check_identity_drop (record direct { topology = fanout; transport = raw_udp })
      ≡ some (many_peers fanout))
    × (check_identity_drop (record direct { transport = raw_udp }) ≡ some connectionless)
    × (check_identity_drop (record direct { resolve_dst = none }) ≡ some unresolvable)
unfolding check_identity_drop
refused = (refl, refl, refl)

described :
    (capabilities_allow_identity_drop
        (record { capabilities = webrtc_dc_capabilities; topology = unicast_1to1 })
      ≡ true)
    × (capabilities_allow_identity_drop
          (record { capabilities = websocket_capabilities; topology = fanout })
        ≡ false)
unfolding capabilities_allow_identity_drop
described = (refl, refl)

can_drop_identity_iff_example : (can_drop_identity direct ≡ true) ↔ IsRecoverable direct
can_drop_identity_iff_example = can_drop_identity_iff direct
