-- ===== src/Registry/Callbacks.antt =====
-- `EventHandler` of native/src/registry.rs: what the callbacks of a peer connection send while the
-- runtime is alive. When it is gone they do nothing.
use kestara_webrtc.Base.{ℕ, Option, none, some, ◌∷◌, Text, pos}
use kestara_webrtc.Events.{NativeEvent, peer_event}
use kestara_webrtc.Events.Kind
use kestara_webrtc.Registry.State.{RuntimeState, Reply, good, bad, registers_channel}
use kestara_webrtc.Registry.Channels.{or_minus_one}
use kestara_webrtc.Registry.Access.{push_event}

pub data PeerState : Type 0 where
  unspecified_state new_state connecting connected disconnected failed closed : PeerState

pub data IceConnectionState : Type 0 where
  unspecified_state new_state checking connected completed disconnected : IceConnectionState
  failed closed : IceConnectionState

pub data IceGatheringState : Type 0 where
  unspecified_state new_state gathering complete : IceGatheringState

unfoldable pub peer_state_number : PeerState → ℕ
peer_state_number PeerState.unspecified_state = 0
peer_state_number PeerState.new_state = 0
peer_state_number PeerState.connecting = 1
peer_state_number PeerState.connected = 2
peer_state_number PeerState.disconnected = 3
peer_state_number PeerState.failed = 4
peer_state_number PeerState.closed = 5

unfoldable pub ice_connection_state_number : IceConnectionState → ℕ
ice_connection_state_number IceConnectionState.unspecified_state = 0
ice_connection_state_number IceConnectionState.new_state = 0
ice_connection_state_number IceConnectionState.checking = 1
ice_connection_state_number IceConnectionState.connected = 2
ice_connection_state_number IceConnectionState.completed = 3
ice_connection_state_number IceConnectionState.disconnected = 4
ice_connection_state_number IceConnectionState.failed = 5
ice_connection_state_number IceConnectionState.closed = 6

unfoldable pub ice_gathering_state_number : IceGatheringState → ℕ
ice_gathering_state_number IceGatheringState.unspecified_state = 0
ice_gathering_state_number IceGatheringState.new_state = 0
ice_gathering_state_number IceGatheringState.gathering = 1
ice_gathering_state_number IceGatheringState.complete = 2

-- What `to_json` gives of a local candidate.
pub record CandidateJson : Type 0 where
  pub candidate : Text
  pub sdp_mid : Option Text
  pub sdp_mline_index : Option ℕ

-- The signaling state comes as the number that the library's enumeration gives it.
pub data Callback : Type 0 where
  on_ice_candidate : Reply CandidateJson → Callback
  on_connection_state_change : PeerState → Callback
  on_ice_connection_state_change : IceConnectionState → Callback
  on_ice_gathering_state_change : IceGatheringState → Callback
  on_data_channel : ℕ → Callback
  on_negotiation_needed : Callback
  on_signaling_state_change : ℕ → Callback

unfoldable pub candidate_event : ℕ → CandidateJson → NativeEvent
candidate_event peer json = record {
  kind = Kind.local_candidate;
  peer_handle = peer;
  channel_handle = 0;
  operation_handle = 0;
  text = some json.candidate;
  secondary_text = json.sdp_mid;
  number = or_minus_one json.sdp_mline_index;
  payload = none;
  delivery_permit = none;
}

unfoldable pub on_callback : ℕ → Callback → RuntimeState → RuntimeState
on_callback peer (Callback.on_ice_candidate (bad text)) s = s
on_callback peer (Callback.on_ice_candidate (good json)) s =
    push_event (candidate_event peer json) s
on_callback peer (Callback.on_connection_state_change state) s =
    push_event (peer_event Kind.peer_state peer (pos (peer_state_number state))) s
on_callback peer (Callback.on_ice_connection_state_change state) s =
    push_event (peer_event Kind.ice_connection_state peer (pos (ice_connection_state_number state)))
      s
on_callback peer (Callback.on_ice_gathering_state_change state) s =
    push_event (peer_event Kind.ice_gathering_state peer (pos (ice_gathering_state_number state))) s
on_callback peer (Callback.on_data_channel channel) s = record s {
  spawned = registers_channel peer channel ∷ s.spawned;
}
on_callback peer Callback.on_negotiation_needed s =
    push_event (peer_event Kind.negotiation_needed peer (pos 0)) s
on_callback peer (Callback.on_signaling_state_change number) s =
    push_event (peer_event Kind.signaling_state peer (pos number)) s
