-- ===== src/Runtime/Calls.antt =====
-- The calls that the commands of native/src/runtime.rs make, left alone, on a registered handle.
use kestara_webrtc.Base.{
  ℕ, ◌≡◌, false, Option, none, some, List, [], ◌∷◌, ◌++◌, arith, if◌then◌else◌,
}
use kestara_webrtc.Map
use kestara_webrtc.Registry.State.{
  RuntimeState, Engine, PeerEntry, ChannelEntry, Call, lock_operations, create_offer, create_answer,
  send, try_send, writable, outstanding_bytes,
}
use kestara_webrtc.Registry.Runs.{Alone}
use kestara_webrtc.Registry.Builder.{policy_of}
use kestara_webrtc.Registry.Peers
use kestara_webrtc.Registry.Channels
use kestara_webrtc.Registry.Still.{
  Still-pure, Still-gets, Still-or_failed, Still-of_result, Still-try_outcome, Still-bind,
  locked_call, channel_call, locked_send,
}
use kestara_webrtc.Runtime.Command.{Command}
use kestara_webrtc.Runtime.Execute.{execute}

-- The calls of a command on a peer, the last one first.
abbrev pub peer_calls : Command → PeerEntry → List Call
peer_calls (Command.create_description o t peer answer) entry =
    (if answer then create_answer entry.peer else create_offer entry.peer)
    ∷ lock_operations peer
    ∷ []
peer_calls (Command.set_local_description o t peer d) entry =
    Call.set_local_description entry.peer d ∷ lock_operations peer ∷ []
peer_calls (Command.set_remote_description o t peer d) entry =
    Call.set_remote_description entry.peer d ∷ lock_operations peer ∷ []
peer_calls (Command.add_ice_candidate o t peer c) entry =
    Call.add_ice_candidate entry.peer c ∷ lock_operations peer ∷ []
peer_calls (Command.restart_ice o t peer) entry =
    Call.restart_ice entry.peer ∷ lock_operations peer ∷ []
peer_calls (Command.set_configuration o t peer servers relay_only) entry =
    Call.set_configuration entry.peer (Peers.servers_or_default servers) (policy_of relay_only)
    ∷ lock_operations peer
    ∷ []
peer_calls (Command.get_stats o t peer) entry =
    Call.get_stats entry.peer ∷ lock_operations peer ∷ []
peer_calls _ entry = []

-- The peer of those commands.
abbrev pub calls_peer : Command → Option ℕ
calls_peer (Command.create_description o t peer answer) = some peer
calls_peer (Command.set_local_description o t peer d) = some peer
calls_peer (Command.set_remote_description o t peer d) = some peer
calls_peer (Command.add_ice_candidate o t peer c) = some peer
calls_peer (Command.restart_ice o t peer) = some peer
calls_peer (Command.set_configuration o t peer servers relay_only) = some peer
calls_peer (Command.get_stats o t peer) = some peer
calls_peer _ = none

-- The calls of a command on a channel, the last one first. Only the sends that may wait take the lock
-- of the channel's peer.
abbrev pub channel_calls : Command → ChannelEntry → List Call
channel_calls (Command.send_text o t h text) entry =
    Call.send_text entry.channel text ∷ lock_operations entry.peer_handle ∷ []
channel_calls (Command.send_binary o t h payload) entry =
    send entry.channel payload ∷ lock_operations entry.peer_handle ∷ []
channel_calls (Command.try_send_text o t h text) entry = Call.try_send_text entry.channel text ∷ []
channel_calls (Command.try_send_binary o t h payload) entry = try_send entry.channel payload ∷ []
channel_calls (Command.data_channel_writable o t h) entry = writable entry.channel ∷ []
channel_calls (Command.data_channel_outstanding_bytes o t h) entry =
    outstanding_bytes entry.channel ∷ []
channel_calls _ entry = []

abbrev pub calls_channel : Command → Option ℕ
calls_channel (Command.send_text o t h text) = some h
calls_channel (Command.send_binary o t h payload) = some h
calls_channel (Command.try_send_text o t h text) = some h
calls_channel (Command.try_send_binary o t h payload) = some h
calls_channel (Command.data_channel_writable o t h) = some h
calls_channel (Command.data_channel_outstanding_bytes o t h) = some h
calls_channel _ = none

-- Left alone, a command that makes a description, sets one, adds a candidate, restarts ICE, changes the
-- configuration or reads the statistics of a registered peer takes the peer's operation lock and then
-- makes its one call of the library on that peer, whatever the answer; nothing else changes. The commands
-- that create a channel or close the peer are not among these.
pub peer_command_calls :
    (eng : Engine) (command : Command) (h : ℕ) (entry : PeerEntry) (s : RuntimeState)
    → Alone eng
    → s.poisoned ≡ false
    → calls_peer command ≡ some h
    → Map.get h s.peers ≡ some entry
    → (execute eng command s).1 ≡ record s { trace = peer_calls command entry ++ s.trace }
unfolding execute Peers.create_description Peers.set_local_description Peers.set_remote_description
    Peers.add_ice_candidate Peers.restart_ice Peers.set_configuration Peers.get_stats
peer_command_calls eng (Command.create_description o t peer answer) h entry s alone clear same p =
    locked_call eng alone s clear peer h entry _ _ _ _ same p (Still-or_failed _)
      (λ _. Still-pure _)
peer_command_calls eng (Command.set_local_description o t peer d) h entry s alone clear same p =
    locked_call eng alone s clear peer h entry _ _ _ _ same p (Still-or_failed _)
      (λ _. Still-pure _)
peer_command_calls eng (Command.set_remote_description o t peer d) h entry s alone clear same p =
    locked_call eng alone s clear peer h entry _ _ _ _ same p (Still-or_failed _)
      (λ _. Still-pure _)
peer_command_calls eng (Command.add_ice_candidate o t peer c) h entry s alone clear same p =
    locked_call eng alone s clear peer h entry _ _ _ _ same p (Still-or_failed _)
      (λ _. Still-pure _)
peer_command_calls eng (Command.restart_ice o t peer) h entry s alone clear same p =
    locked_call eng alone s clear peer h entry _ _ _ _ same p (Still-or_failed _)
      (λ _. Still-pure _)
peer_command_calls eng (Command.set_configuration o t peer servers relay_only) h entry s alone clear
      same p =
    locked_call eng alone s clear peer h entry _ _ _ _ same p (Still-or_failed _)
      (λ _. Still-pure _)
peer_command_calls eng (Command.get_stats o t peer) h entry s alone clear same p =
    locked_call eng alone s clear peer h entry _ _ _ _ same p
      (λ r. Still-bind _ _ (Still-gets _) λ trace. Still-of_result _) (λ _. Still-pure _)
peer_command_calls eng _ h entry s alone clear same p = absurd (ground (arith, same))

-- Left alone, a command that sends a text or bytes on a registered channel, waiting for room or not, that
-- waits until the channel is writable or reads its outstanding bytes makes its one call of the library on
-- that channel, whatever the answer; nothing else changes. The channel's peer is registered too. The sends
-- that may wait take the peer's operation lock before, the others take none. The commands that set the
-- thresholds or close the channel are not among these.
pub channel_command_calls :
    (eng : Engine) (command : Command) (h : ℕ) (entry : ChannelEntry) (peer : PeerEntry)
    (s : RuntimeState)
    → Alone eng
    → s.poisoned ≡ false
    → calls_channel command ≡ some h
    → Map.get h s.channels ≡ some entry
    → Map.get entry.peer_handle s.peers ≡ some peer
    → (execute eng command s).1 ≡ record s { trace = channel_calls command entry ++ s.trace }
unfolding execute Channels.send_text Channels.send_binary Channels.try_send_text
    Channels.try_send_binary Channels.data_channel_writable Channels.data_channel_outstanding_bytes
channel_command_calls eng (Command.send_text o t c text) h entry peer s alone clear same q p =
    locked_send eng alone s clear c h entry peer _ _ _ _ same q p (Still-or_failed _)
      (λ _. Still-pure _)
channel_command_calls eng (Command.send_binary o t c payload) h entry peer s alone clear same q p =
    locked_send eng alone s clear c h entry peer _ _ _ _ same q p (Still-or_failed _)
      (λ _. Still-pure _)
channel_command_calls eng (Command.try_send_text o t c text) h entry peer s alone clear same q p =
    channel_call eng alone s clear c h entry _ _ _ _ same q (Still-try_outcome _)
      (λ _. Still-pure _)
channel_command_calls eng (Command.try_send_binary o t c payload) h entry peer s alone clear same q
      p =
    channel_call eng alone s clear c h entry _ _ _ _ same q (Still-try_outcome _)
      (λ _. Still-pure _)
channel_command_calls eng (Command.data_channel_writable o t c) h entry peer s alone clear same q
      p =
    channel_call eng alone s clear c h entry _ _ _ _ same q (Still-or_failed _) (λ _. Still-pure _)
channel_command_calls eng (Command.data_channel_outstanding_bytes o t c) h entry peer s alone clear
      same q p =
    channel_call eng alone s clear c h entry _ _ _ _ same q
      (λ r. Still-bind _ _ (Still-or_failed _ r) (λ _. Still-pure _)) (λ _. Still-pure _)
channel_command_calls eng _ h entry peer s alone clear same q p = absurd (ground (arith, same))
