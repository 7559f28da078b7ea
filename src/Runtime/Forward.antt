-- ===== src/Runtime/Forward.antt =====
-- `execute` and `dispatch` of native/src/runtime.rs keep the registry well formed.
use kestara_webrtc.Base.{ℕ}
use kestara_webrtc.Registry.State.{RuntimeState, Engine}
use kestara_webrtc.Registry.Access.{push_event}
use kestara_webrtc.Registry.Invariant.Defs.{WellFormed, HasRoom, Rely}
use kestara_webrtc.Registry.Invariant.Rules.{Ensures, Ensures-bind, Ensures-pure, Ensures-fail}
use kestara_webrtc.Registry.Invariant.Operations
use kestara_webrtc.Registry.Invariant.ChannelOperations
use kestara_webrtc.Runtime.Command.{Command}
use kestara_webrtc.Runtime.Execute.{execute, dispatch}

module _ {o : ℕ} (eng : Engine) (rely : Rely o eng) where
  pub execute-Ensures : (command : Command) → Ensures o (execute eng command)
  unfolding execute
  execute-Ensures (Command.create_peer p t c) =
      Ensures-bind _ _ (Operations.create_peer-Ensures eng rely c) λ _. Ensures-pure _
  execute-Ensures (Command.create_description p t peer answer) =
      Ensures-bind _ _ (Operations.create_description-Ensures eng rely peer answer)
        λ _. Ensures-pure _
  execute-Ensures (Command.set_local_description p t peer d) =
      Ensures-bind _ _ (Operations.set_local_description-Ensures eng rely peer d)
        λ _. Ensures-pure _
  execute-Ensures (Command.set_remote_description p t peer d) =
      Ensures-bind _ _ (Operations.set_remote_description-Ensures eng rely peer d)
        λ _. Ensures-pure _
  execute-Ensures (Command.add_ice_candidate p t peer c) =
      Ensures-bind _ _ (Operations.add_ice_candidate-Ensures eng rely peer c) λ _. Ensures-pure _
  execute-Ensures (Command.restart_ice p t peer) =
      Ensures-bind _ _ (Operations.restart_ice-Ensures eng rely peer) λ _. Ensures-pure _
  execute-Ensures (Command.set_configuration p t peer servers relay_only) =
      Ensures-bind _ _ (Operations.set_configuration-Ensures eng rely peer servers relay_only)
        λ _. Ensures-pure _
  execute-Ensures (Command.create_data_channel p t peer c) =
      Ensures-bind _ _ (ChannelOperations.create_data_channel-Ensures eng rely peer c)
        λ _. Ensures-pure _
  execute-Ensures (Command.send_text p t channel text) =
      Ensures-bind _ _ (ChannelOperations.send_text-Ensures eng rely channel text)
        λ _. Ensures-pure _
  execute-Ensures (Command.send_binary p t channel payload) =
      Ensures-bind _ _ (ChannelOperations.send_binary-Ensures eng rely channel payload)
        λ _. Ensures-pure _
  execute-Ensures (Command.try_send_text p t channel text) =
      Ensures-bind _ _ (ChannelOperations.try_send_text-Ensures eng rely channel text)
        λ _. Ensures-pure _
  execute-Ensures (Command.try_send_binary p t channel payload) =
      Ensures-bind _ _ (ChannelOperations.try_send_binary-Ensures eng rely channel payload)
        λ _. Ensures-pure _
  execute-Ensures (Command.data_channel_writable p t channel) =
      Ensures-bind _ _ (ChannelOperations.data_channel_writable-Ensures eng rely channel)
        λ _. Ensures-pure _
  execute-Ensures (Command.data_channel_outstanding_bytes p t channel) =
      Ensures-bind _ _ (ChannelOperations.data_channel_outstanding_bytes-Ensures eng rely channel)
        λ _. Ensures-pure _
  execute-Ensures (Command.set_data_channel_thresholds p t channel low high) =
      Ensures-bind _ _
        (ChannelOperations.set_data_channel_thresholds-Ensures eng rely channel low high)
        λ _. Ensures-pure _
  execute-Ensures (Command.get_stats p t peer) =
      Ensures-bind _ _ (Operations.get_stats-Ensures eng rely peer) λ _. Ensures-pure _
  execute-Ensures (Command.close_data_channel p t channel) =
      Ensures-bind _ _ (ChannelOperations.close_data_channel-Ensures eng rely channel)
        λ _. Ensures-pure _
  execute-Ensures (Command.close_peer p t peer) =
      Ensures-bind _ _ (Operations.close_peer-Ensures eng rely peer) λ _. Ensures-pure _
  execute-Ensures (Command.rotate_certificate p t pem) =
      Ensures-bind _ _ (Operations.rotate_certificate-Ensures eng rely pem) λ _. Ensures-pure _
  execute-Ensures (Command.shutdown p t) = Ensures-fail _

-- Let the other tasks take no handle back while a command waits, keep a well-formed registry well formed
-- and not complete some one operation. Then a registry that is well formed before a command is
-- dispatched is well formed after it, however it ends, as long as fewer than 2 ^ 64 - 1 handles are given
-- out by then.
pub dispatch-WellFormed :
    (eng : Engine) (command : Command) (s : RuntimeState) {o : ℕ}
    → Rely o eng
    → WellFormed s
    → HasRoom (dispatch eng command s)
    → WellFormed (dispatch eng command s)
unfolding dispatch push_event
dispatch-WellFormed eng command s {o} rely w r =
    let l = (execute-Ensures {o = o} eng rely command).at s in
    let v = l.well_formed w r in
    record {
      counter = v.counter;
      peers_below = v.peers_below;
      channels_below = v.channels_below;
      peers_distinct = v.peers_distinct;
      channels_distinct = v.channels_distinct;
    }
