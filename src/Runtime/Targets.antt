-- ===== src/Runtime/Targets.antt =====
-- What the commands of native/src/runtime.rs do when the handle that they name is not registered.
use kestara_webrtc.Base.{ℕ, ◌≡◌, false, Option, none, some, arith}
use kestara_webrtc.Errors.{unknown_peer, unknown_channel}
use kestara_webrtc.Map
use kestara_webrtc.Registry.State.{RuntimeState, Engine, PeerEntry, ChannelEntry}
use kestara_webrtc.Registry.Task.{Task, fails, ◌>>=◌}
use kestara_webrtc.Registry.Access.{get_peer, get_channel}
use kestara_webrtc.Registry.Runs.{get_peer_missing, get_channel_missing}
use kestara_webrtc.Registry.Peers
use kestara_webrtc.Registry.Channels
use kestara_webrtc.Runtime.Command.{Command}
use kestara_webrtc.Runtime.Execute.{execute}

-- The peer that a command needs to find in the registry. `close_peer` needs none: it succeeds when the
-- peer is gone.
abbrev pub needs_peer : Command → Option ℕ
needs_peer (Command.create_description o t peer answer) = some peer
needs_peer (Command.set_local_description o t peer d) = some peer
needs_peer (Command.set_remote_description o t peer d) = some peer
needs_peer (Command.add_ice_candidate o t peer c) = some peer
needs_peer (Command.restart_ice o t peer) = some peer
needs_peer (Command.set_configuration o t peer servers relay_only) = some peer
needs_peer (Command.create_data_channel o t peer c) = some peer
needs_peer (Command.get_stats o t peer) = some peer
needs_peer _ = none

-- The channel that a command needs to find in the registry. `close_data_channel` needs none: it succeeds
-- when the channel is gone.
abbrev pub needs_channel : Command → Option ℕ
needs_channel (Command.send_text o t channel text) = some channel
needs_channel (Command.send_binary o t channel payload) = some channel
needs_channel (Command.try_send_text o t channel text) = some channel
needs_channel (Command.try_send_binary o t channel payload) = some channel
needs_channel (Command.data_channel_writable o t channel) = some channel
needs_channel (Command.data_channel_outstanding_bytes o t channel) = some channel
needs_channel (Command.set_data_channel_thresholds o t channel low high) = some channel
needs_channel _ = none

module _ (s : RuntimeState) (clear : s.poisoned ≡ false) {A B : Type 0} (target h : ℕ) where
  peer_refused :
      (f : PeerEntry → Task A) (g : A → Task B)
      → some target ≡ some h
      → Map.get h s.peers ≡ none
      → ((get_peer target >>= f) >>= g) s ≡ (fails (unknown_peer h), s)
  unfolding ◌>>=◌
  peer_refused f g p gone = ground (arith, get_peer_missing s h f clear gone)

  channel_refused :
      (f : ChannelEntry → Task A) (g : A → Task B)
      → some target ≡ some h
      → Map.get h s.channels ≡ none
      → ((get_channel target >>= f) >>= g) s ≡ (fails (unknown_channel h), s)
  unfolding ◌>>=◌
  channel_refused f g p gone = ground (arith, get_channel_missing s h f clear gone)

-- A command on a peer that is not registered, other than `close_peer`, fails with an error that names the
-- handle. Nothing is called and nothing changes. The lock of the registry is not poisoned.
pub unknown_peer_refused :
    (eng : Engine) (command : Command) (h : ℕ) (s : RuntimeState)
    → s.poisoned ≡ false
    → needs_peer command ≡ some h
    → Map.get h s.peers ≡ none
    → execute eng command s ≡ (fails (unknown_peer h), s)
unfolding execute Peers.create_description Peers.set_local_description Peers.set_remote_description
    Peers.add_ice_candidate Peers.restart_ice Peers.set_configuration Channels.create_data_channel
    Peers.get_stats
unknown_peer_refused eng (Command.create_description o t peer answer) h s clear p gone =
    peer_refused s clear peer h _ _ p gone
unknown_peer_refused eng (Command.set_local_description o t peer d) h s clear p gone =
    peer_refused s clear peer h _ _ p gone
unknown_peer_refused eng (Command.set_remote_description o t peer d) h s clear p gone =
    peer_refused s clear peer h _ _ p gone
unknown_peer_refused eng (Command.add_ice_candidate o t peer c) h s clear p gone =
    peer_refused s clear peer h _ _ p gone
unknown_peer_refused eng (Command.restart_ice o t peer) h s clear p gone =
    peer_refused s clear peer h _ _ p gone
unknown_peer_refused eng (Command.set_configuration o t peer servers relay_only) h s clear p gone =
    peer_refused s clear peer h _ _ p gone
unknown_peer_refused eng (Command.create_data_channel o t peer c) h s clear p gone =
    peer_refused s clear peer h _ _ p gone
unknown_peer_refused eng (Command.get_stats o t peer) h s clear p gone =
    peer_refused s clear peer h _ _ p gone
unknown_peer_refused eng _ h s clear p gone = absurd (ground (arith, p))

-- A command on a channel that is not registered, other than `close_data_channel`, fails with an error that
-- names the handle. Nothing is called and nothing changes. The lock of the registry is not poisoned.
pub unknown_channel_refused :
    (eng : Engine) (command : Command) (h : ℕ) (s : RuntimeState)
    → s.poisoned ≡ false
    → needs_channel command ≡ some h
    → Map.get h s.channels ≡ none
    → execute eng command s ≡ (fails (unknown_channel h), s)
unfolding execute Channels.send_text Channels.send_binary Channels.try_send_text
    Channels.try_send_binary Channels.data_channel_writable Channels.data_channel_outstanding_bytes
    Channels.set_data_channel_thresholds
unknown_channel_refused eng (Command.send_text o t channel text) h s clear p gone =
    channel_refused s clear channel h _ _ p gone
unknown_channel_refused eng (Command.send_binary o t channel payload) h s clear p gone =
    channel_refused s clear channel h _ _ p gone
unknown_channel_refused eng (Command.try_send_text o t channel text) h s clear p gone =
    channel_refused s clear channel h _ _ p gone
unknown_channel_refused eng (Command.try_send_binary o t channel payload) h s clear p gone =
    channel_refused s clear channel h _ _ p gone
unknown_channel_refused eng (Command.data_channel_writable o t channel) h s clear p gone =
    channel_refused s clear channel h _ _ p gone
unknown_channel_refused eng (Command.data_channel_outstanding_bytes o t channel) h s clear p gone =
    channel_refused s clear channel h _ _ p gone
unknown_channel_refused eng (Command.set_data_channel_thresholds o t channel low high) h s clear p
      gone =
    channel_refused s clear channel h _ _ p gone
unknown_channel_refused eng _ h s clear p gone = absurd (ground (arith, p))
