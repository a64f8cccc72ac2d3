-- ===== src/Adapter/PeerConnection.antt =====
-- packages/bare-probe/adapters/webrtc.ts: the tap on a peer connection, its state events and its polling
-- of `getStats`. A poll stands for one call of the timer's function with what the promise settles to.
use bare_network_inspect.Base.{
  ℕ, suc, Bool, true, false, not, ◌||◌, Option, List, [], ◌∷◌, ◌++◌, if◌then◌else◌, JsString, ascii,
}
use bare_network_inspect.Adapter.{Call, returned, threw}
use bare_network_inspect.Adapter.Stats.{Report, NormalisedStats, extract_relevant}

abbrev pub conn_events : List JsString
conn_events =
    ascii "iceconnectionstatechange"
    ∷ ascii "connectionstatechange"
    ∷ ascii "icegatheringstatechange"
    ∷ ascii "signalingstatechange"
    ∷ []

pub data PeerEvent (N : Type 0) : Type 0 where
  conn_state : (peer_id event : JsString) (ice conn : Option JsString) (t : ℕ) → PeerEvent N
  conn_stats : (peer_id : JsString) → NormalisedStats N → (t : ℕ) → PeerEvent N
  send_error : (peer_id error : JsString) (t : ℕ) → PeerEvent N

-- The events that the probe listens to, whether its timer runs, and what it has emitted.
pub record Monitor (N : Type 0) : Type 0 where
  pub listeners : List JsString
  pub polling : Bool
  pub emitted : List (PeerEvent N)
  pub readings : ℕ

abbrev pub untouched : {N : Type 0} → Monitor N
untouched = record { listeners = []; polling = false; emitted = []; readings = 0 }

-- `instrumentPeerConnection`.
unfoldable pub instrument :
    {N : Type 0} → (enabled disabled_by_build : Bool) → Monitor N → Monitor N
instrument enabled disabled_by_build m =
    if not enabled || disabled_by_build
    then m
    else record m { listeners = m.listeners ++ conn_events; polling = true }

-- `restore`; a connection without `removeEventListener` keeps the listeners.
unfoldable pub restore : {N : Type 0} → (can_remove : Bool) → Monitor N → Monitor N
restore can_remove m = record m {
  listeners = if can_remove then [] else m.listeners;
  polling = false;
}

module _ {E N : Type 0} (now : ℕ → Call E ℕ) (message_of : E → JsString) (peer_id : JsString) where
  unfoldable pub emit_at : (ℕ → PeerEvent N) → Monitor N → Monitor N × Call E (Unit {0})
  emit_at event m =
      let m' : Monitor N = record m { readings = suc m.readings } in
      elim (now m.readings) [
        | returned t ↦ (record m' { emitted = m.emitted ++ (event t ∷ []) }, returned tt)
        | threw e ↦ (m', threw e)
      ]

  -- The listener of one event; the states are read from the connection when it is called.
  unfoldable pub on_state_change :
      (event : JsString) (ice conn : Option JsString) → Monitor N → Monitor N × Call E (Unit {0})
  on_state_change event ice conn m = emit_at (conn_state peer_id event ice conn) m

  unfoldable pub poll_failed : E → Monitor N → Monitor N
  poll_failed err m = (emit_at (send_error peer_id (message_of err)) m).0

  module _ (zero : N) (plus : N → N → N) (to_ms : N → N) where
    -- `.then(...)`, whose throw is the `catch`'s, and `.catch(...)`, whose throw no one handles.
    unfoldable pub poll_resolved : Report N → Monitor N → Monitor N
    poll_resolved stats m =
        let out = emit_at (conn_stats peer_id (extract_relevant zero plus to_ms stats)) m in
        elim out.1 [ returned _ ↦ out.0 | threw err ↦ poll_failed err out.0 ]

    unfoldable pub poll : Call E (Report N) → Monitor N → Monitor N
    poll (returned stats) m = poll_resolved stats m
    poll (threw err) m = poll_failed err m
