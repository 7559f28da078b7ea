-- ===== src/Bridge/Jni/Calls.antt =====
-- The native methods `nativeSubmit…` of native/src/bridge.rs, but for the one that creates a peer: the
-- call that each makes of its arguments, in the order of the code's checks.
use kestara_webrtc.Base.{
  ℕ, zero, suc, ◌||◌, Bool, true, false, not, Option, List, [], ◌∷◌, Text, codes, ℤ, pos, ltb, ◌==◌,
  length,
}
use kestara_webrtc.Registry.Types.{IceServer, SessionDescription}
use kestara_webrtc.Runtime.Command.{Command}
use kestara_webrtc.Bridge.Checked.{Checked, valid, invalid, ◌>>=◌, ◌>>◌}
use kestara_webrtc.Bridge.Arguments
use kestara_webrtc.Bridge.Arguments.{optional_u16, handle_from_jlong, parse_description}
use kestara_webrtc.Bridge.Request.{Readers, Submission, submits, unsigned, wants_answer, described}
use kestara_webrtc.Bridge.Jni.Values.{
  Native, after, JString, JArray, Call, read_string, read_optional_string, read_string_array,
  operation_result, read_bytes, non_empty,
}

-- `if wrong { return Err(message) }`
unfoldable pub refuse_when : Bool → Text → Checked (Unit {0})
refuse_when true message = invalid message
refuse_when false message = valid tt

-- The four numbers of a call, read in the order in which a struct literal of a command reads them.
unfoldable pub with_handles :
    (runtime operation timeout target : ℤ) → (ℕ → ℕ → ℕ → Checked Submission) → Checked Call
with_handles runtime operation timeout target make = do
  r ← handle_from_jlong runtime
  o ← handle_from_jlong operation
  t ← Arguments.timeout timeout
  h ← handle_from_jlong target
  what ← make o t h
  valid (record { runtime = r; what = what })

unfoldable pub submit_simple_channel_command :
    (runtime operation channel timeout : ℤ) → (ℕ → ℕ → ℕ → Command) → Native Call
submit_simple_channel_command runtime operation channel timeout command =
    operation_result
      (with_handles runtime operation timeout channel λ o t h. valid (submits (command o t h)))

unfoldable pub submit_restart_ice : (runtime operation peer timeout : ℤ) → Native Call
submit_restart_ice runtime operation peer timeout = operation_result (
    with_handles runtime operation timeout peer
      λ o t h. valid (submits (Command.restart_ice o t h)))

unfoldable pub submit_get_stats : (runtime operation peer timeout : ℤ) → Native Call
submit_get_stats runtime operation peer timeout =
    operation_result (
      with_handles runtime operation timeout peer
        λ o t h. valid (submits (Command.get_stats o t h)))

unfoldable pub submit_close_data_channel : (runtime operation channel timeout : ℤ) → Native Call
submit_close_data_channel runtime operation channel timeout = operation_result (
    with_handles runtime operation timeout channel
      λ o t h. valid (submits (Command.close_data_channel o t h)))

unfoldable pub submit_close_peer : (runtime operation peer timeout : ℤ) → Native Call
submit_close_peer runtime operation peer timeout = operation_result (
    with_handles runtime operation timeout peer λ o t h. valid (submits (Command.close_peer o t h)))

unfoldable pub submit_data_channel_writable : (runtime operation channel timeout : ℤ) → Native Call
submit_data_channel_writable runtime operation channel timeout =
    submit_simple_channel_command runtime operation channel timeout Command.data_channel_writable

unfoldable pub submit_data_channel_outstanding_bytes :
    (runtime operation channel timeout : ℤ) → Native Call
submit_data_channel_outstanding_bytes runtime operation channel timeout =
    submit_simple_channel_command runtime operation channel timeout
      Command.data_channel_outstanding_bytes

-- A call that names no peer and no channel.
unfoldable pub on_runtime : (runtime operation timeout : ℤ) → (ℕ → ℕ → Submission) → Checked Call
on_runtime runtime operation timeout make = do
  r ← handle_from_jlong runtime
  o ← handle_from_jlong operation
  t ← Arguments.timeout timeout
  valid (record { runtime = r; what = make o t })

unfoldable pub submit_close_runtime : (runtime operation timeout : ℤ) → Native Call
submit_close_runtime runtime operation timeout =
    operation_result (on_runtime runtime operation timeout λ o t. submits (Command.shutdown o t))

unfoldable pub submit_rotate_certificate :
    (runtime operation : ℤ) → JString → (timeout : ℤ) → Native Call
submit_rotate_certificate runtime operation certificate_pem timeout =
    after (read_string certificate_pem) λ pem. operation_result (
      on_runtime runtime operation timeout
        λ o t. submits (Command.rotate_certificate o t (non_empty pem)))

unfoldable pub submit_create_description :
    (runtime operation peer description_type timeout : ℤ) → Native Call
submit_create_description runtime operation peer description_type timeout = operation_result (do
  r ← handle_from_jlong runtime
  o ← handle_from_jlong operation
  h ← handle_from_jlong peer
  answer ← wants_answer description_type
  t ← Arguments.timeout timeout
  valid (record { runtime = r; what = submits (Command.create_description o t h answer) }))

-- `make` is the command of the local or of the remote description. A description that the library
-- refuses completes the operation.
unfoldable pub submit_description :
    Readers
    → (runtime operation peer : ℤ) → JString
    → (description_type timeout : ℤ) → (ℕ → ℕ → ℕ → SessionDescription → Command)
    → Native Call
submit_description readers runtime operation peer sdp description_type timeout make =
    after (read_string sdp) λ text. operation_result (do
      r ← handle_from_jlong runtime
      o ← handle_from_jlong operation
      h ← handle_from_jlong peer
      t ← Arguments.timeout timeout
      valid (record {
        runtime = r;
        what =
            described o (make o t h) (parse_description readers.description text description_type);
      }))

unfoldable pub submit_set_local_description :
    Readers → (runtime operation peer : ℤ) → JString → (description_type timeout : ℤ) → Native Call
submit_set_local_description readers runtime operation peer sdp description_type timeout =
    submit_description readers runtime operation peer sdp description_type timeout
      Command.set_local_description

unfoldable pub submit_set_remote_description :
    Readers → (runtime operation peer : ℤ) → JString → (description_type timeout : ℤ) → Native Call
submit_set_remote_description readers runtime operation peer sdp description_type timeout =
    submit_description readers runtime operation peer sdp description_type timeout
      Command.set_remote_description

unfoldable pub submit_add_ice_candidate :
    (runtime operation peer : ℤ)
    → (candidate sdp_mid : JString) → (sdp_mline_index timeout : ℤ) → Native Call
submit_add_ice_candidate runtime operation peer candidate sdp_mid sdp_mline_index timeout =
    after (read_string candidate) λ text. after (read_optional_string sdp_mid) λ mid.
      operation_result (
        with_handles runtime operation timeout peer λ o t h. do
          index ← optional_u16 sdp_mline_index (codes "SDP m-line index")
          valid (
              submits (
                Command.add_ice_candidate o t h
                  (record { candidate = text; sdp_mid = mid; sdp_mline_index = index }))))

unfoldable pub submit_create_data_channel :
    (runtime operation peer : ℤ)
    → (label : JString) → (ordered : Bool) → (max_packet_life_time max_retransmits : ℤ)
    → (protocol : JString) → (negotiated_id timeout : ℤ) → Native Call
submit_create_data_channel runtime operation peer label ordered max_packet_life_time max_retransmits
      protocol negotiated_id timeout =
    after (read_string label) λ name. after (read_string protocol) λ protocol_name.
      operation_result (
        with_handles runtime operation timeout peer λ o t h. do
          life_time ← optional_u16 max_packet_life_time (codes "maximum packet lifetime")
          retransmits ← optional_u16 max_retransmits (codes "maximum retransmissions")
          negotiated ← optional_u16 negotiated_id (codes "negotiated DataChannel ID")
          valid (
              submits (
                Command.create_data_channel o t h (record {
                  label = name;
                  ordered = ordered;
                  max_packet_life_time = life_time;
                  max_retransmits = retransmits;
                  protocol = protocol_name;
                  negotiated_id = negotiated;
                }))))

unfoldable pub submit_send_text :
    (runtime operation channel : ℤ) → JString → (timeout : ℤ) → Native Call
submit_send_text runtime operation channel text timeout = after (read_string text) λ value.
    operation_result (
      with_handles runtime operation timeout channel
        λ o t h. valid (submits (Command.send_text o t h value)))

unfoldable pub submit_try_send_text :
    (runtime operation channel : ℤ) → JString → (timeout : ℤ) → Native Call
submit_try_send_text runtime operation channel text timeout = after (read_string text) λ value.
    operation_result (
      with_handles runtime operation timeout channel
        λ o t h. valid (submits (Command.try_send_text o t h value)))

-- A byte array that the JVM does not give, as a null reference, is an error of the JNI.
unfoldable pub submit_send_binary :
    (runtime operation channel : ℤ) → Option (List ℕ) → (timeout : ℤ) → Native Call
submit_send_binary runtime operation channel payload timeout = after (read_bytes payload) λ value.
    operation_result (
      with_handles runtime operation timeout channel
        λ o t h. valid (submits (Command.send_binary o t h value)))

unfoldable pub submit_try_send_binary :
    (runtime operation channel : ℤ) → Option (List ℕ) → (timeout : ℤ) → Native Call
submit_try_send_binary runtime operation channel payload timeout =
    after (read_bytes payload) λ value. operation_result (
      with_handles runtime operation timeout channel
        λ o t h. valid (submits (Command.try_send_binary o t h value)))

unfoldable pub submit_set_data_channel_thresholds :
    (runtime operation channel low high timeout : ℤ) → Native Call
submit_set_data_channel_thresholds runtime operation channel low high timeout = operation_result (do
  l ← unsigned low (codes "Low buffered amount threshold must not be negative")
  m ← unsigned high (codes "High buffered amount threshold must not be negative")
  refuse_when (ltb m l) (codes "Low buffered amount threshold must not exceed high")
  with_handles runtime operation timeout channel
      λ o t h. valid (submits (Command.set_data_channel_thresholds o t h l m)))

-- The arrays of servers, one URL each.
unfoldable pub zip_servers : (urls usernames credentials : List Text) → List IceServer
zip_servers (url ∷ urls) (username ∷ usernames) (credential ∷ credentials) =
    record { urls = url ∷ []; username = username; credential = credential }
    ∷ zip_servers urls usernames credentials
zip_servers _ _ _ = []

unfoldable pub check_servers : (urls usernames credentials : List Text) → Checked (Unit {0})
check_servers urls usernames credentials =
    refuse_when (not (length urls == length usernames) || not (length urls == length credentials))
      (codes "ICE server arrays must have the same length")

-- `ice_transport_policy == 1`, once it is known to be 0 or 1
unfoldable pub relay_policy : ℤ → Checked Bool
relay_policy (pos zero) = valid false
relay_policy (pos (suc zero)) = valid true
relay_policy _ = invalid (codes "Invalid ICE transport policy")

unfoldable pub submit_set_configuration :
    (runtime operation peer : ℤ)
    → (urls usernames credentials : JArray) → (ice_transport_policy timeout : ℤ) → Native Call
submit_set_configuration runtime operation peer urls usernames credentials ice_transport_policy
      timeout =
    after (read_string_array urls) λ us. after (read_string_array usernames) λ names.
      after (read_string_array credentials) λ secrets. operation_result (do
        check_servers us names secrets
        relay_only ← relay_policy ice_transport_policy
        with_handles runtime operation timeout peer λ o t h.
            valid
              (submits (Command.set_configuration o t h (zip_servers us names secrets) relay_only)))
