-- ===== src/Registry/Invariant/Callbacks.antt =====
-- The callbacks of native/src/registry.rs as other tasks: what they may do while an operation waits.
use kestara_webrtc.Base.{ℕ, ◌≡◌, refl}
use kestara_webrtc.Registry.State.{RuntimeState, good, bad}
use kestara_webrtc.Events.{peer_event}
use kestara_webrtc.Registry.Access.{push_event}
use kestara_webrtc.Registry.Callbacks.{Callback, candidate_event, on_callback}
use kestara_webrtc.Registry.Invariant.Defs.{Later, Later-refl, frame_Later}
use kestara_webrtc.Registry.Invariant.Rules.{push_event-Later}

-- A callback of the library completes no operation, takes no handle back, keeps a well-formed registry
-- well formed, and leads no handle to anything new, since it leaves the peers and the channels as they
-- are: it is one of the tasks that may run while an operation waits.
pub on_callback-Later :
    (o peer : ℕ) (callback : Callback) (s : RuntimeState)
    → Later o s (on_callback peer callback s)
      × ((on_callback peer callback s).peers ≡ s.peers)
      × ((on_callback peer callback s).channels ≡ s.channels)
unfolding on_callback candidate_event peer_event push_event
on_callback-Later o peer (Callback.on_ice_candidate (bad text)) s = (Later-refl s, refl, refl)
on_callback-Later o peer (Callback.on_ice_candidate (good json)) s =
    (push_event-Later _ s refl, refl, refl)
on_callback-Later o peer (Callback.on_connection_state_change state) s =
    (push_event-Later _ s refl, refl, refl)
on_callback-Later o peer (Callback.on_ice_connection_state_change state) s =
    (push_event-Later _ s refl, refl, refl)
on_callback-Later o peer (Callback.on_ice_gathering_state_change state) s =
    (push_event-Later _ s refl, refl, refl)
on_callback-Later o peer (Callback.on_data_channel channel) s =
    (frame_Later s _ refl refl refl refl refl, refl, refl)
on_callback-Later o peer Callback.on_negotiation_needed s = (push_event-Later _ s refl, refl, refl)
on_callback-Later o peer (Callback.on_signaling_state_change number) s =
    (push_event-Later _ s refl, refl, refl)
