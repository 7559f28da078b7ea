-- ===== src/Runtime/Execute.antt =====
-- `execute` and `dispatch` of native/src/runtime.rs.
use kestara_webrtc.Base.{some, Text}
use kestara_webrtc.Base.Strings.{decimal, bool_text}
use kestara_webrtc.Errors.{timed_out, invalid_shutdown}
use kestara_webrtc.Events.{OperationValue, default_value, Result, ok, err, operation_event}
use kestara_webrtc.Registry.State.{RuntimeState, Engine}
use kestara_webrtc.Registry.Task.{Outcome, done, fails, dropped, Task, pure, fail, ◌>>=◌, ◌>>◌}
use kestara_webrtc.Registry.Access.{push_event}
use kestara_webrtc.Registry.Builder
use kestara_webrtc.Registry.Peers
use kestara_webrtc.Registry.Channels
use kestara_webrtc.Runtime.Command.{Command, operation_handle}
use kestara_webrtc.Runtime.Certificate

abbrev text_value : Text → OperationValue
text_value text = record default_value { text = some text }

unfoldable pub execute : Engine → Command → Task OperationValue
execute eng (Command.create_peer o t c) = do
  peer ← Builder.create_peer eng c
  pure (record default_value { peer_handle = peer })
execute eng (Command.create_description o t peer answer) = do
  text ← Peers.create_description eng peer answer
  pure (text_value text)
execute eng (Command.set_local_description o t peer description) = do
  Peers.set_local_description eng peer description
  pure default_value
execute eng (Command.set_remote_description o t peer description) = do
  Peers.set_remote_description eng peer description
  pure default_value
execute eng (Command.add_ice_candidate o t peer candidate) = do
  Peers.add_ice_candidate eng peer candidate
  pure default_value
execute eng (Command.restart_ice o t peer) = do Peers.restart_ice eng peer; pure default_value
execute eng (Command.set_configuration o t peer servers relay_only) = do
  Peers.set_configuration eng peer servers relay_only
  pure default_value
execute eng (Command.create_data_channel o t peer c) = do
  (handle, id) ← Channels.create_data_channel eng peer c
  pure (record default_value { channel_handle = handle; text = some (decimal id) })
execute eng (Command.send_text o t channel text) = do
  Channels.send_text eng channel text
  pure default_value
execute eng (Command.send_binary o t channel payload) = do
  Channels.send_binary eng channel payload
  pure default_value
execute eng (Command.try_send_text o t channel text) = do
  was_sent ← Channels.try_send_text eng channel text
  pure (text_value (bool_text was_sent))
execute eng (Command.try_send_binary o t channel payload) = do
  was_sent ← Channels.try_send_binary eng channel payload
  pure (text_value (bool_text was_sent))
execute eng (Command.data_channel_writable o t channel) = do
  Channels.data_channel_writable eng channel
  pure default_value
execute eng (Command.data_channel_outstanding_bytes o t channel) = do
  amount ← Channels.data_channel_outstanding_bytes eng channel
  pure (text_value (decimal amount))
execute eng (Command.set_data_channel_thresholds o t channel low high) = do
  Channels.set_data_channel_thresholds eng channel low high
  pure default_value
execute eng (Command.get_stats o t peer) = do
  bytes ← Peers.get_stats eng peer
  pure (record default_value { payload = some bytes })
execute eng (Command.close_data_channel o t channel) = do
  Channels.close_data_channel eng channel
  pure default_value
execute eng (Command.close_peer o t peer) = do Peers.close_peer eng peer; pure default_value
execute eng (Command.rotate_certificate o t pem) = do
  fingerprint ← Certificate.rotate_certificate eng pem
  pure (text_value fingerprint)
execute eng (Command.shutdown o t) = fail invalid_shutdown

-- `timeout(…).await.map_err(…).and_then(…)`
unfoldable pub settle {ℓ} : {A : Type ℓ} → Outcome A → Result A
settle (done a) = ok a
settle (fails e) = err e
settle dropped = err timed_out

-- The spawned task, from its start to its end.
unfoldable pub dispatch : Engine → Command → RuntimeState → RuntimeState
dispatch eng command s =
    let (outcome, s') = execute eng command s in
    push_event (operation_event (operation_handle command) (settle outcome)) s'
