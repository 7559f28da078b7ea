-- ===== src/Bridge/Submit.antt =====
-- The match of `kestara_runtime_submit` of native/src/c_bridge.rs on the kind of a request.
use kestara_webrtc.Base.{ℕ, Option, List, Text, codes}
use kestara_webrtc.Runtime.Command.{Command}
use kestara_webrtc.Bridge.Checked.{Checked, valid, ◌>>=◌}
use kestara_webrtc.Bridge.Arguments
use kestara_webrtc.Bridge.Arguments.{optional_u16}
use kestara_webrtc.Bridge.Configuration.{peer_configuration}
use kestara_webrtc.Bridge.Request.{
  Readers, Request, Kind, Submission, submits, input, optional_string, required, command_kind,
  small, unsigned, wants_answer, description_command,
}

-- `text`, `secondary` and `bytes` are the request's, checked before.
unfoldable pub command_of :
    Readers
    → Request
    → (timeout : ℕ) → (text secondary : Option Text) → List ℕ
    → Kind
    → Checked Submission
command_of readers r t text secondary bytes Kind.create_peer = do
  json ← input r.configuration
  dto ← readers.peer_dto json
  configuration ← peer_configuration readers.address dto
  valid (submits (Command.create_peer r.operation t configuration))
command_of readers r t text secondary bytes Kind.restart_ice =
    valid (submits (Command.restart_ice r.operation t r.target))
command_of readers r t text secondary bytes Kind.set_configuration = do
  json ← input r.configuration
  dto ← readers.peer_dto json
  valid (submits (Command.set_configuration r.operation t r.target dto.ice_servers dto.relay_only))
command_of readers r t text secondary bytes Kind.create_description = do
  answer ← wants_answer r.number
  valid (submits (Command.create_description r.operation t r.target answer))
command_of readers r t text secondary bytes Kind.set_local_description =
    description_command readers r text (Command.set_local_description r.operation t r.target)
command_of readers r t text secondary bytes Kind.set_remote_description =
    description_command readers r text (Command.set_remote_description r.operation t r.target)
command_of readers r t text secondary bytes Kind.add_ice_candidate = do
  candidate ← required text (codes "ICE candidate")
  number ← small r.number (codes "Invalid SDP m-line index")
  index ← optional_u16 number (codes "SDP m-line index")
  valid (
      submits (
        Command.add_ice_candidate r.operation t r.target
          (record { candidate = candidate; sdp_mid = secondary; sdp_mline_index = index })))
command_of readers r t text secondary bytes Kind.create_data_channel = do
  json ← input r.configuration
  dto ← readers.channel_dto json
  label ← required text (codes "DataChannel label")
  life_time ← optional_u16 dto.max_packet_life_time (codes "maximum packet lifetime")
  retransmits ← optional_u16 dto.max_retransmits (codes "maximum retransmissions")
  negotiated ← optional_u16 dto.negotiated_id (codes "negotiated DataChannel ID")
  valid (
      submits (
        Command.create_data_channel r.operation t r.target (record {
          label = label;
          ordered = dto.ordered;
          max_packet_life_time = life_time;
          max_retransmits = retransmits;
          protocol = dto.protocol;
          negotiated_id = negotiated;
        })))
command_of readers r t text secondary bytes Kind.send_text = do
  value ← required text (codes "DataChannel text")
  valid (submits (Command.send_text r.operation t r.target value))
command_of readers r t text secondary bytes Kind.send_binary =
    valid (submits (Command.send_binary r.operation t r.target bytes))
command_of readers r t text secondary bytes Kind.try_send_text = do
  value ← required text (codes "DataChannel text")
  valid (submits (Command.try_send_text r.operation t r.target value))
command_of readers r t text secondary bytes Kind.try_send_binary =
    valid (submits (Command.try_send_binary r.operation t r.target bytes))
command_of readers r t text secondary bytes Kind.data_channel_writable =
    valid (submits (Command.data_channel_writable r.operation t r.target))
command_of readers r t text secondary bytes Kind.data_channel_outstanding_bytes =
    valid (submits (Command.data_channel_outstanding_bytes r.operation t r.target))
command_of readers r t text secondary bytes Kind.set_data_channel_thresholds = do
  low ← unsigned r.number (codes "Invalid low buffered amount threshold")
  high ← unsigned r.secondary_number (codes "Invalid high buffered amount threshold")
  valid (submits (Command.set_data_channel_thresholds r.operation t r.target low high))
command_of readers r t text secondary bytes Kind.get_stats =
    valid (submits (Command.get_stats r.operation t r.target))
command_of readers r t text secondary bytes Kind.rotate_certificate =
    valid (submits (Command.rotate_certificate r.operation t text))
command_of readers r t text secondary bytes Kind.close_data_channel =
    valid (submits (Command.close_data_channel r.operation t r.target))
command_of readers r t text secondary bytes Kind.close_peer =
    valid (submits (Command.close_peer r.operation t r.target))
command_of readers r t text secondary bytes Kind.close_runtime =
    valid (submits (Command.shutdown r.operation t))

unfoldable pub submission : Readers → Request → Checked Submission
submission readers r = do
  t ← Arguments.timeout r.timeout_millis
  text ← optional_string readers.utf8_error r.text
  secondary ← optional_string readers.utf8_error r.secondary_text
  bytes ← input r.data_bytes
  kind ← command_kind r.kind
  command_of readers r t text secondary bytes kind
