-- ===== src/Bridge/Jni/Same/Commands.antt =====
-- The native methods of native/src/bridge.rs, but for those that carry a configuration: each asks what
-- the request of native/src/c_bridge.rs does.
use kestara_webrtc.Base.{ℕ, refl, Option, none, some, List, [], ◌∷◌, ℤ}
use kestara_webrtc.Bridge.Checked.{◌>>=◌}
use kestara_webrtc.Bridge.Request.{Readers, input, optional_string, required, command_kind}
use kestara_webrtc.Bridge.Submit.{command_of, submission}
use kestara_webrtc.Bridge.Jni.Values.{
  JString, java_string, null_string, unreadable, read_string, read_bytes, non_empty, after,
}
use kestara_webrtc.Bridge.Jni.Calls.{
  submit_simple_channel_command, submit_restart_ice, submit_get_stats, submit_close_data_channel,
  submit_close_peer, submit_data_channel_writable, submit_data_channel_outstanding_bytes,
  submit_close_runtime, submit_rotate_certificate, submit_send_text, submit_try_send_text,
  submit_send_binary, submit_try_send_binary,
}
use kestara_webrtc.Bridge.Jni.Methods.{NativeCall}
use kestara_webrtc.Bridge.Jni.Requests.{c_request, HoldsText}
use kestara_webrtc.Bridge.Jni.Same.{Same, Same-with_handles, Same-on_runtime}

module _ (readers : Readers) (json : List ℕ) (r o x t : ℤ) where
  pub restart_ice-Same :
      Same readers (c_request json (NativeCall.restart_ice r o x t)) r (submit_restart_ice r o x t)
  unfolding submit_restart_ice submission optional_string input command_kind command_of ◌>>=◌
  restart_ice-Same =
      Same-with_handles readers (c_request json (NativeCall.restart_ice r o x t)) r o t x _
        λ millis e. rw e refl

  pub get_stats-Same :
      Same readers (c_request json (NativeCall.get_stats r o x t)) r (submit_get_stats r o x t)
  unfolding submit_get_stats submission optional_string input command_kind command_of ◌>>=◌
  get_stats-Same =
      Same-with_handles readers (c_request json (NativeCall.get_stats r o x t)) r o t x _
        λ millis e. rw e refl

  pub close_data_channel-Same :
      Same readers
        (c_request json (NativeCall.close_data_channel r o x t))
        r
        (submit_close_data_channel r o x t)
  unfolding submit_close_data_channel submission optional_string input command_kind command_of ◌>>=◌
  close_data_channel-Same =
      Same-with_handles readers (c_request json (NativeCall.close_data_channel r o x t)) r o t x _
        λ millis e. rw e refl

  pub close_peer-Same :
      Same readers (c_request json (NativeCall.close_peer r o x t)) r (submit_close_peer r o x t)
  unfolding submit_close_peer submission optional_string input command_kind command_of ◌>>=◌
  close_peer-Same =
      Same-with_handles readers (c_request json (NativeCall.close_peer r o x t)) r o t x _
        λ millis e. rw e refl

  pub data_channel_writable-Same :
      Same readers
        (c_request json (NativeCall.data_channel_writable r o x t))
        r
        (submit_data_channel_writable r o x t)
  unfolding submit_data_channel_writable submit_simple_channel_command submission optional_string
      input command_kind command_of ◌>>=◌
  data_channel_writable-Same =
      Same-with_handles readers (c_request json (NativeCall.data_channel_writable r o x t)) r o t x
        _ λ millis e. rw e refl

  pub data_channel_outstanding_bytes-Same :
      Same readers
        (c_request json (NativeCall.data_channel_outstanding_bytes r o x t))
        r
        (submit_data_channel_outstanding_bytes r o x t)
  unfolding submit_data_channel_outstanding_bytes submit_simple_channel_command submission
      optional_string input command_kind command_of ◌>>=◌
  data_channel_outstanding_bytes-Same =
      Same-with_handles readers (c_request json (NativeCall.data_channel_outstanding_bytes r o x t))
        r o t x _ λ millis e. rw e refl

  pub send_text-Same :
      (text : JString)
      → HoldsText text
      → Same readers
          (c_request json (NativeCall.send_text r o x text t))
          r
          (submit_send_text r o x text t)
  unfolding submit_send_text after read_string submission optional_string input command_kind
      command_of required ◌>>=◌
  send_text-Same null_string h = tt
  send_text-Same unreadable h = tt
  send_text-Same (java_string text) h =
      Same-with_handles readers (c_request json (NativeCall.send_text r o x (java_string text) t)) r
        o t x _ λ millis e. rw (e, h) refl

  pub try_send_text-Same :
      (text : JString)
      → HoldsText text
      → Same readers
          (c_request json (NativeCall.try_send_text r o x text t))
          r
          (submit_try_send_text r o x text t)
  unfolding submit_try_send_text after read_string submission optional_string input command_kind
      command_of required ◌>>=◌
  try_send_text-Same null_string h = tt
  try_send_text-Same unreadable h = tt
  try_send_text-Same (java_string text) h =
      Same-with_handles readers
        (c_request json (NativeCall.try_send_text r o x (java_string text) t)) r o t x _
        λ millis e. rw (e, h) refl

  pub send_binary-Same :
      (payload : Option (List ℕ))
      → Same readers
          (c_request json (NativeCall.send_binary r o x payload t))
          r
          (submit_send_binary r o x payload t)
  unfolding submit_send_binary after read_bytes submission optional_string input command_kind
      command_of ◌>>=◌
  send_binary-Same none = tt
  send_binary-Same (some bytes) =
      Same-with_handles readers (c_request json (NativeCall.send_binary r o x (some bytes) t)) r o t
        x _ λ millis e. rw e refl

  pub try_send_binary-Same :
      (payload : Option (List ℕ))
      → Same readers
          (c_request json (NativeCall.try_send_binary r o x payload t))
          r
          (submit_try_send_binary r o x payload t)
  unfolding submit_try_send_binary after read_bytes submission optional_string input command_kind
      command_of ◌>>=◌
  try_send_binary-Same none = tt
  try_send_binary-Same (some bytes) =
      Same-with_handles readers (c_request json (NativeCall.try_send_binary r o x (some bytes) t)) r
        o t x _ λ millis e. rw e refl

module _ (readers : Readers) (json : List ℕ) (r o t : ℤ) where
  pub close_runtime-Same :
      Same readers (c_request json (NativeCall.close_runtime r o t)) r (submit_close_runtime r o t)
  unfolding submit_close_runtime submission optional_string input command_kind command_of ◌>>=◌
  close_runtime-Same =
      Same-on_runtime readers (c_request json (NativeCall.close_runtime r o t)) r o t _
        λ millis e. rw e refl

  pub rotate_certificate-Same :
      (pem : JString)
      → HoldsText pem
      → Same readers
          (c_request json (NativeCall.rotate_certificate r o pem t))
          r
          (submit_rotate_certificate r o pem t)
  unfolding submit_rotate_certificate after read_string non_empty submission optional_string input
      command_kind command_of ◌>>=◌
  rotate_certificate-Same null_string h = tt
  rotate_certificate-Same unreadable h = tt
  rotate_certificate-Same (java_string []) h =
      Same-on_runtime readers
        (c_request json (NativeCall.rotate_certificate r o (java_string []) t)) r o t _
        λ millis e. rw e refl
  rotate_certificate-Same (java_string (c ∷ cs)) h =
      Same-on_runtime readers
        (c_request json (NativeCall.rotate_certificate r o (java_string (c ∷ cs)) t)) r o t _
        λ millis e. rw (e, h) refl
