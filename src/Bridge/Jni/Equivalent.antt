-- ===== src/Bridge/Jni/Equivalent.antt =====
-- Both bridges, native/src/bridge.rs and native/src/c_bridge.rs, ask the same of a runtime.
use kestara_webrtc.Base.{ℕ, ◌≡◌, refl, List, ℤ}
use mathlib.Core.Path.{transport}
use kestara_webrtc.Runtime.Table.{Runtimes}
use kestara_webrtc.Bridge.Request.{Readers}
use kestara_webrtc.Bridge.Boundary.{runtime_submit, runtime_submit-valid}
use kestara_webrtc.Bridge.Jni.Values.{returns, Call}
use kestara_webrtc.Bridge.Jni.Methods.{NativeCall, native_call, carry_out, void, submit_native}
use kestara_webrtc.Bridge.Jni.Requests.{c_request, Agrees}
use kestara_webrtc.Bridge.Jni.Same.{to_u64, Same}
use kestara_webrtc.Bridge.Jni.Same.Commands.{
  restart_ice-Same, get_stats-Same, close_data_channel-Same, close_peer-Same,
  data_channel_writable-Same, data_channel_outstanding_bytes-Same, send_text-Same,
  try_send_text-Same, send_binary-Same, try_send_binary-Same, close_runtime-Same,
  rotate_certificate-Same,
}
use kestara_webrtc.Bridge.Jni.Same.Descriptions.{
  create_description-Same, set_local_description-Same, set_remote_description-Same,
  add_ice_candidate-Same, set_data_channel_thresholds-Same,
}
use kestara_webrtc.Bridge.Jni.Same.Configurations.{
  create_peer-Same, set_configuration-Same, create_data_channel-Same,
}

abbrev pub runtime_of : NativeCall → ℤ
runtime_of (NativeCall.create_peer r o s n) = r
runtime_of (NativeCall.restart_ice r o p t) = r
runtime_of (NativeCall.set_configuration r o p us ns cs k t) = r
runtime_of (NativeCall.create_description r o p k t) = r
runtime_of (NativeCall.set_local_description r o p sdp k t) = r
runtime_of (NativeCall.set_remote_description r o p sdp k t) = r
runtime_of (NativeCall.add_ice_candidate r o p c m i t) = r
runtime_of (NativeCall.create_data_channel r o p l ordered a b q n t) = r
runtime_of (NativeCall.send_text r o c x t) = r
runtime_of (NativeCall.send_binary r o c x t) = r
runtime_of (NativeCall.try_send_text r o c x t) = r
runtime_of (NativeCall.try_send_binary r o c x t) = r
runtime_of (NativeCall.data_channel_writable r o c t) = r
runtime_of (NativeCall.data_channel_outstanding_bytes r o c t) = r
runtime_of (NativeCall.set_data_channel_thresholds r o c l h t) = r
runtime_of (NativeCall.get_stats r o p t) = r
runtime_of (NativeCall.rotate_certificate r o pem t) = r
runtime_of (NativeCall.close_data_channel r o c t) = r
runtime_of (NativeCall.close_peer r o p t) = r
runtime_of (NativeCall.close_runtime r o t) = r

native_call-Same :
    (rs : Readers) (json : List ℕ) (call : NativeCall)
    → Agrees rs json call
    → Same rs (c_request json call) (runtime_of call) (native_call rs call)
unfolding native_call
native_call-Same rs json (NativeCall.create_peer r o s n) a = create_peer-Same rs json r o s n a
native_call-Same rs json (NativeCall.restart_ice r o p t) a = restart_ice-Same rs json r o p t
native_call-Same rs json (NativeCall.set_configuration r o p us ns cs k t) a =
    set_configuration-Same rs json r o p us ns cs k t a
native_call-Same rs json (NativeCall.create_description r o p k t) a =
    create_description-Same rs json r o p k t
native_call-Same rs json (NativeCall.set_local_description r o p sdp k t) (int, text) =
    set_local_description-Same rs json r o p k t int sdp text
native_call-Same rs json (NativeCall.set_remote_description r o p sdp k t) (int, text) =
    set_remote_description-Same rs json r o p k t int sdp text
native_call-Same rs json (NativeCall.add_ice_candidate r o p c m i t) (int, text, mid) =
    add_ice_candidate-Same rs json r o p i t int c m text mid
native_call-Same rs json (NativeCall.create_data_channel r o p l ordered a b q n t) agrees =
    create_data_channel-Same rs json r o p ordered a b n t l q agrees
native_call-Same rs json (NativeCall.send_text r o c x t) a = send_text-Same rs json r o c t x a
native_call-Same rs json (NativeCall.send_binary r o c x t) a = send_binary-Same rs json r o c t x
native_call-Same rs json (NativeCall.try_send_text r o c x t) a =
    try_send_text-Same rs json r o c t x a
native_call-Same rs json (NativeCall.try_send_binary r o c x t) a =
    try_send_binary-Same rs json r o c t x
native_call-Same rs json (NativeCall.data_channel_writable r o c t) a =
    data_channel_writable-Same rs json r o c t
native_call-Same rs json (NativeCall.data_channel_outstanding_bytes r o c t) a =
    data_channel_outstanding_bytes-Same rs json r o c t
native_call-Same rs json (NativeCall.set_data_channel_thresholds r o c l h t) a =
    set_data_channel_thresholds-Same rs json r o c l h t
native_call-Same rs json (NativeCall.get_stats r o p t) a = get_stats-Same rs json r o p t
native_call-Same rs json (NativeCall.rotate_certificate r o pem t) a =
    rotate_certificate-Same rs json r o t pem a
native_call-Same rs json (NativeCall.close_data_channel r o c t) a =
    close_data_channel-Same rs json r o c t
native_call-Same rs json (NativeCall.close_peer r o p t) a = close_peer-Same rs json r o p t
native_call-Same rs json (NativeCall.close_runtime r o t) a = close_runtime-Same rs json r o t

-- A native method whose arguments are accepted does to the runtimes, and answers, what the request of
-- the C ABI with the same arguments does and answers: both ask the same command, or the same error of
-- its operation, of the same runtime. The condition is that the request's configuration is read as the
-- method's, that strings hold UTF-8, and that the numbers which the C ABI takes as 64 bits have 32.
pub bridges_agree :
    (rs : Readers) (json : List ℕ) (call : NativeCall) (c : Call) (t : Runtimes)
    → Agrees rs json call
    → native_call rs call ≡ returns c
    → submit_native rs call t
      ≡ void (runtime_submit rs (to_u64 (runtime_of call)) (c_request json call) t)
unfolding submit_native carry_out
bridges_agree rs json call c t agrees e =
    let same =
      transport (λ i. Same rs (c_request json call) (runtime_of call) (e i))
        (native_call-Same rs json call agrees) in
    rw
      (
        e,
        runtime_submit-valid rs (to_u64 (runtime_of call)) (c_request json call) t c.what same.0,
        same.1,
      )
      refl
