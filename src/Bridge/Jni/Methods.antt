-- ===== src/Bridge/Jni/Methods.antt =====
-- The native methods of native/src/bridge.rs on the table of runtimes. A buffer that the JVM cannot make,
-- or a string that it cannot, is not modelled.
use kestara_webrtc.Base.{ℕ, Bool, Option, List, Text, ℤ}
use kestara_webrtc.Runtime.Table
use kestara_webrtc.Runtime.Table.{
  Runtimes, Answer, nothing, polled, view, request, certificate_pem, certificate_fingerprint,
}
use kestara_webrtc.Bridge.Checked.{Checked, valid, invalid}
use kestara_webrtc.Bridge.Arguments.{handle_from_jlong}
use kestara_webrtc.Bridge.Request.{Readers}
use kestara_webrtc.Bridge.Boundary.{asked}
use kestara_webrtc.Bridge.Jni.Values.{
  Native, returns, throws, jni_error, JString, JArray, Call, operation_result,
}
use kestara_webrtc.Bridge.Jni.Calls
use kestara_webrtc.Bridge.Jni.Peer

-- The calls of `nativeSubmit…`, with their arguments.
pub data NativeCall : Type 0 where
  create_peer :
      (runtime operation : ℤ) → Peer.PeerStrings JString JArray → Peer.PeerNumbers → NativeCall
  restart_ice : (runtime operation peer timeout : ℤ) → NativeCall
  set_configuration :
      (runtime operation peer : ℤ)
      → (urls usernames credentials : JArray) → (ice_transport_policy timeout : ℤ) → NativeCall
  create_description : (runtime operation peer description_type timeout : ℤ) → NativeCall
  set_local_description :
      (runtime operation peer : ℤ) → (sdp : JString) → (description_type timeout : ℤ) → NativeCall
  set_remote_description :
      (runtime operation peer : ℤ) → (sdp : JString) → (description_type timeout : ℤ) → NativeCall
  add_ice_candidate :
      (runtime operation peer : ℤ)
      → (candidate sdp_mid : JString) → (sdp_mline_index timeout : ℤ) → NativeCall
  create_data_channel :
      (runtime operation peer : ℤ)
      → (label : JString) → (ordered : Bool) → (max_packet_life_time max_retransmits : ℤ)
      → (protocol : JString) → (negotiated_id timeout : ℤ) → NativeCall
  send_text : (runtime operation channel : ℤ) → (text : JString) → (timeout : ℤ) → NativeCall
  send_binary :
      (runtime operation channel : ℤ) → (payload : Option (List ℕ)) → (timeout : ℤ) → NativeCall
  try_send_text : (runtime operation channel : ℤ) → (text : JString) → (timeout : ℤ) → NativeCall
  try_send_binary :
      (runtime operation channel : ℤ) → (payload : Option (List ℕ)) → (timeout : ℤ) → NativeCall
  data_channel_writable : (runtime operation channel timeout : ℤ) → NativeCall
  data_channel_outstanding_bytes : (runtime operation channel timeout : ℤ) → NativeCall
  set_data_channel_thresholds : (runtime operation channel low high timeout : ℤ) → NativeCall
  get_stats : (runtime operation peer timeout : ℤ) → NativeCall
  rotate_certificate : (runtime operation : ℤ) → (pem : JString) → (timeout : ℤ) → NativeCall
  close_data_channel : (runtime operation channel timeout : ℤ) → NativeCall
  close_peer : (runtime operation peer timeout : ℤ) → NativeCall
  close_runtime : (runtime operation timeout : ℤ) → NativeCall

unfoldable pub native_call : Readers → NativeCall → Native Call
native_call rs (create_peer r o s n) = Peer.submit_create_peer rs r o s n
native_call rs (restart_ice r o p t) = Calls.submit_restart_ice r o p t
native_call rs (set_configuration r o p us ns cs k t) =
    Calls.submit_set_configuration r o p us ns cs k t
native_call rs (create_description r o p k t) = Calls.submit_create_description r o p k t
native_call rs (set_local_description r o p sdp k t) =
    Calls.submit_set_local_description rs r o p sdp k t
native_call rs (set_remote_description r o p sdp k t) =
    Calls.submit_set_remote_description rs r o p sdp k t
native_call rs (add_ice_candidate r o p c m i t) = Calls.submit_add_ice_candidate r o p c m i t
native_call rs (create_data_channel r o p l ordered a b q n t) =
    Calls.submit_create_data_channel r o p l ordered a b q n t
native_call rs (send_text r o c x t) = Calls.submit_send_text r o c x t
native_call rs (send_binary r o c x t) = Calls.submit_send_binary r o c x t
native_call rs (try_send_text r o c x t) = Calls.submit_try_send_text r o c x t
native_call rs (try_send_binary r o c x t) = Calls.submit_try_send_binary r o c x t
native_call rs (data_channel_writable r o c t) = Calls.submit_data_channel_writable r o c t
native_call rs (data_channel_outstanding_bytes r o c t) =
    Calls.submit_data_channel_outstanding_bytes r o c t
native_call rs (set_data_channel_thresholds r o c l h t) =
    Calls.submit_set_data_channel_thresholds r o c l h t
native_call rs (get_stats r o p t) = Calls.submit_get_stats r o p t
native_call rs (rotate_certificate r o pem t) = Calls.submit_rotate_certificate r o pem t
native_call rs (close_data_channel r o c t) = Calls.submit_close_data_channel r o c t
native_call rs (close_peer r o p t) = Calls.submit_close_peer r o p t
native_call rs (close_runtime r o t) = Calls.submit_close_runtime r o t

-- A request that returns nothing to its caller.
unfoldable pub void : Checked Answer × Runtimes → Native (Unit {0}) × Runtimes
void (valid answer, t) = (returns tt, t)
void (invalid e, t) = (throws e, t)

unfoldable pub carry_out : Native Call → Runtimes → Native (Unit {0}) × Runtimes
carry_out (returns c) t = void (request c.runtime (asked c.what) t)
carry_out (throws e) t = (throws e, t)
carry_out jni_error t = (jni_error, t)

unfoldable pub submit_native : Readers → NativeCall → Runtimes → Native (Unit {0}) × Runtimes
submit_native readers call t = carry_out (native_call readers call) t

-- A method that only asks a runtime, once its handle is read.
unfoldable pub on_handle :
    Checked ℕ → (ℕ → Checked Answer × Runtimes) → Runtimes → Native (Unit {0}) × Runtimes
on_handle (valid h) ask t = void (ask h)
on_handle (invalid e) ask t = (throws e, t)

unfoldable pub native_wake_runtime : ℤ → Runtimes → Native (Unit {0}) × Runtimes
native_wake_runtime runtime t =
    on_handle (handle_from_jlong runtime) (λ h. request h Table.wake_up t) t

unfoldable pub native_release_runtime : ℤ → Runtimes → Native (Unit {0}) × Runtimes
native_release_runtime runtime t =
    on_handle (handle_from_jlong runtime) (λ h. request h Table.release t) t

unfoldable pub native_release_buffer :
    (runtime buffer : ℤ) → Runtimes → Native (Unit {0}) × Runtimes
native_release_buffer runtime buffer t =
    on_handle (handle_from_jlong runtime)
      (λ h. elim (handle_from_jlong buffer) [
        | valid b ↦ request h (Table.free_buffer b) t
        | invalid e ↦ (invalid e, t)
      ])
      t

unfoldable pub native_runtime_certificate_pem : ℤ → Runtimes → Native Text
native_runtime_certificate_pem runtime t = elim (handle_from_jlong runtime) [
  | valid h ↦ operation_result (certificate_pem h t)
  | invalid e ↦ throws e
]

unfoldable pub native_runtime_certificate_fingerprint :
    (Text → List Text) → ℤ → Runtimes → Native Text
native_runtime_certificate_fingerprint fingerprints runtime t = elim (handle_from_jlong runtime) [
  | valid h ↦ operation_result (certificate_fingerprint fingerprints h t)
  | invalid e ↦ throws e
]
