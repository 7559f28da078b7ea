-- ===== src/Registry/Peers.antt =====
-- The operations of native/src/registry.rs on a peer. Each looks the peer up, takes the peer's
-- operation lock, and then calls the library.
use kestara_webrtc.Base.{
  ℕ, Bool, not, Option, none, some, List, [], ◌∷◌, Text, ◌==◌, if◌then◌else◌, is_empty,
}
use kestara_webrtc.Errors.{
  creating_description, setting_local_description, setting_remote_description, adding_candidate,
  restarting_ice, updating_configuration, closing_peer, clock_before_epoch,
}
use kestara_webrtc.Events.{Result, ok, err}
use kestara_webrtc.Stats.Encode.{encode_stats}
use kestara_webrtc.Map
use kestara_webrtc.Map.{Map}
use kestara_webrtc.Registry.Types.{
  IceServer, default_ice_server, SessionDescription, IceCandidateInit,
}
use kestara_webrtc.Registry.State.{
  RuntimeState, Engine, Call, PeerEntry, create_offer, create_answer, Reply, good, bad,
}
use kestara_webrtc.Registry.Task.{
  Task, pure, gets, modify, await, or_failed, of_result, ◌>>=◌, ◌>>◌,
}
use kestara_webrtc.Registry.Access.{lock_registry, get_peer, lock_peer}
use kestara_webrtc.Registry.Builder.{policy_of}

unfoldable pub create_description : Engine → ℕ → Bool → Task Text
create_description eng handle answer = do
  entry ← get_peer handle
  lock_peer eng handle
  reply ←
      await eng (if answer then create_answer entry.peer else create_offer entry.peer) eng.described
  or_failed creating_description reply

unfoldable pub set_local_description : Engine → ℕ → SessionDescription → Task (Unit {0})
set_local_description eng handle description = do
  entry ← get_peer handle
  lock_peer eng handle
  reply ← await eng (Call.set_local_description entry.peer description) eng.finished
  or_failed setting_local_description reply

unfoldable pub set_remote_description : Engine → ℕ → SessionDescription → Task (Unit {0})
set_remote_description eng handle description = do
  entry ← get_peer handle
  lock_peer eng handle
  reply ← await eng (Call.set_remote_description entry.peer description) eng.finished
  or_failed setting_remote_description reply

unfoldable pub add_ice_candidate : Engine → ℕ → IceCandidateInit → Task (Unit {0})
add_ice_candidate eng handle candidate = do
  entry ← get_peer handle
  lock_peer eng handle
  reply ← await eng (Call.add_ice_candidate entry.peer candidate) eng.finished
  or_failed adding_candidate reply

unfoldable pub restart_ice : Engine → ℕ → Task (Unit {0})
restart_ice eng handle = do
  entry ← get_peer handle
  lock_peer eng handle
  reply ← await eng (Call.restart_ice entry.peer) eng.finished
  or_failed restarting_ice reply

-- An empty list is replaced by one default server.
abbrev pub servers_or_default : List IceServer → List IceServer
servers_or_default servers = if is_empty servers then default_ice_server ∷ [] else servers

unfoldable pub set_configuration : Engine → ℕ → List IceServer → Bool → Task (Unit {0})
set_configuration eng handle servers relay_only = do
  entry ← get_peer handle
  lock_peer eng handle
  reply ←
      await eng
        (Call.set_configuration entry.peer (servers_or_default servers) (policy_of relay_only))
        eng.finished
  or_failed updating_configuration reply

abbrev clock_result : Reply ℕ → Result ℕ
clock_result (good millis) = ok millis
clock_result (bad text) = err (clock_before_epoch text)

unfoldable pub get_stats : Engine → ℕ → Task (List ℕ)
get_stats eng handle = do
  entry ← get_peer handle
  lock_peer eng handle
  report ← await eng (Call.get_stats entry.peer) eng.stats_of
  trace ← gets (λ s. s.trace)
  of_result (encode_stats report (clock_result (eng.clock trace)))

-- What `close_peer` does to the registry in one critical section: the channels of the peer go, then
-- the peer.
unfoldable pub forget_peer : ℕ → RuntimeState → RuntimeState
forget_peer handle s = record s {
  channels = Map.retain (λ entry. not (entry.peer_handle == handle)) s.channels;
  peers = Map.remove handle s.peers;
}

unfoldable pub close_entry : Engine → ℕ → Option PeerEntry → Task (Unit {0})
close_entry eng handle none = pure tt
close_entry eng handle (some entry) = do
  lock_peer eng handle
  reply ← await eng (Call.close_peer entry.peer) eng.finished
  or_failed closing_peer reply

unfoldable pub close_peer : Engine → ℕ → Task (Unit {0})
close_peer eng handle = do
  lock_registry
  entry ← gets (λ s. Map.get handle s.peers)
  modify (forget_peer handle)
  close_entry eng handle entry

unfoldable pub clear_registry : RuntimeState → RuntimeState
clear_registry s = record s { channels = []; peers = [] }
