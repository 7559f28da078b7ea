-- ===== src/Bridge/Jni/Same/Descriptions.antt =====
-- The native methods of native/src/bridge.rs, that carry a description, a candidate, or thresholds: each
-- asks what the request of native/src/c_bridge.rs does.
use kestara_webrtc.Base.{
  ℕ, ◌^◌, ◌≡◌, refl, Option, none, some, List, Text, codes, ℤ, pos, negsuc, ltb, arith, Bool-cases,
  inl, inr,
}
use kestara_webrtc.Registry.Types.{SessionDescription}
use kestara_webrtc.Runtime.Command.{Command}
use kestara_webrtc.Bridge.Checked.{Checked, valid, invalid, Accepts, ◌>>=◌}
use kestara_webrtc.Bridge.Arguments
use kestara_webrtc.Bridge.Arguments.{optional_u16, parse_description}
use kestara_webrtc.Bridge.Request.{
  Readers, Request, Submission, submits, input, optional_string, required, command_kind, small,
  unsigned, wants_answer, description_command,
}
use kestara_webrtc.Bridge.Submit.{command_of, submission}
use kestara_webrtc.Bridge.Jni.Values.{
  JString, java_string, null_string, unreadable, read_string, read_optional_string, after,
  operation_result,
}
use kestara_webrtc.Bridge.Jni.Calls.{
  refuse_when, with_handles, submit_create_description, submit_description,
  submit_set_local_description, submit_set_remote_description, submit_add_ice_candidate,
  submit_set_data_channel_thresholds,
}
use kestara_webrtc.Bridge.Jni.Methods.{NativeCall}
use kestara_webrtc.Bridge.Jni.Requests.{c_request, bare, IsInt, HoldsText}
use kestara_webrtc.Bridge.Jni.Same.{to_u64, Same, Same-bind, Same-handle, Same-with_handles}

module _ (readers : Readers) (json : List ℕ) (r o x : ℤ) where
  pub create_description-Same :
      (number t : ℤ)
      → Same readers
          (c_request json (NativeCall.create_description r o x number t))
          r
          (submit_create_description r o x number t)
  unfolding submit_create_description submission optional_string input command_kind command_of
      operation_result ◌>>=◌
  create_description-Same number t = Same-handle readers asked r r _ (
      Same-handle readers asked r o _ (
        Same-handle readers asked r x _ (
          Same-bind readers asked r (wants_answer number) _ λ answer ea.
            Same-bind readers asked r (Arguments.timeout t) _ λ millis e. (rw (e, ea) refl, refl))))
    where
      asked : Request
      asked = c_request json (NativeCall.create_description r o x number t)

small_int : (z : ℤ) (e : Text) → IsInt z → small z e ≡ valid z
unfolding small
small_int (pos n) e h = rw h refl
small_int (negsuc n) e h = rw h refl

-- The methods for the local and for the remote description.
module _ (readers : Readers) (r o x : ℤ) where
  description-Same :
      (request : Request) (text : Text) (number t : ℤ)
      (make : ℕ → ℕ → ℕ → SessionDescription → Command)
      → IsInt number
      → ((millis : ℕ)
          → Arguments.timeout t ≡ valid millis
          → submission readers request
            ≡ description_command readers
                (record (bare 5 o x t) { number = number })
                (some text)
                (make (to_u64 o) millis (to_u64 x)))
      → Same readers request r (submit_description readers r o x (java_string text) number t make)
  unfolding submit_description after read_string operation_result description_command required ◌>>=◌
  description-Same request text number t make int asks = Same-handle readers request r r _ (
      Same-handle readers request r o _ (
        Same-handle readers request r x _ (
          Same-bind readers request r (Arguments.timeout t) _ λ millis e. (
            rw (asks millis e, small_int number (codes "Invalid session description type") int)
                refl,
            refl,
          ))))

module _ (readers : Readers) (json : List ℕ) (r o x number t : ℤ) (int : IsInt number) where
  pub set_local_description-Same :
      (sdp : JString)
      → HoldsText sdp
      → Same readers
          (c_request json (NativeCall.set_local_description r o x sdp number t))
          r
          (submit_set_local_description readers r o x sdp number t)
  unfolding submit_set_local_description submit_description after read_string submission
      optional_string input command_kind command_of description_command ◌>>=◌
  set_local_description-Same null_string h = tt
  set_local_description-Same unreadable h = tt
  set_local_description-Same (java_string text) h =
      description-Same readers r o x
        (c_request json (NativeCall.set_local_description r o x (java_string text) number t)) text
        number t Command.set_local_description int λ millis e. rw (e, h) refl

  pub set_remote_description-Same :
      (sdp : JString)
      → HoldsText sdp
      → Same readers
          (c_request json (NativeCall.set_remote_description r o x sdp number t))
          r
          (submit_set_remote_description readers r o x sdp number t)
  unfolding submit_set_remote_description submit_description after read_string submission
      optional_string input command_kind command_of description_command ◌>>=◌
  set_remote_description-Same null_string h = tt
  set_remote_description-Same unreadable h = tt
  set_remote_description-Same (java_string text) h =
      description-Same readers r o x
        (c_request json (NativeCall.set_remote_description r o x (java_string text) number t)) text
        number t Command.set_remote_description int λ millis e. rw (e, h) refl

-- `sdp_mid` may be missing.
module _ (readers : Readers) (json : List ℕ) (r o x number t : ℤ) (int : IsInt number) where
  candidate-Same :
      (request : Request) (text : Text) (mid : Option Text)
      → ((millis : ℕ)
          → Arguments.timeout t ≡ valid millis
          → submission readers request ≡ (
              small number (codes "Invalid SDP m-line index") >>= λ n.
              optional_u16 n (codes "SDP m-line index") >>= λ index. valid (
                submits (
                  Command.add_ice_candidate
                    (to_u64 o)
                    millis
                    (to_u64 x)
                    (record { candidate = text; sdp_mid = mid; sdp_mline_index = index })))))
      → Same readers request r (
          operation_result (
            with_handles r o t x λ o' t' h. do
              index ← optional_u16 number (codes "SDP m-line index")
              valid (
                  submits (
                    Command.add_ice_candidate o' t' h
                      (record { candidate = text; sdp_mid = mid; sdp_mline_index = index })))))
  unfolding ◌>>=◌
  candidate-Same request text mid asks = Same-with_handles readers request r o t x _ λ millis e.
      index-Accepts _ (optional_u16 number (codes "SDP m-line index"))
        (rw (asks millis e, small_int number (codes "Invalid SDP m-line index") int) refl)
    where
      index-Accepts :
          (make : Option ℕ → Submission) (m : Checked (Option ℕ))
          → submission readers request ≡ (m >>= λ index. valid (make index))
          → Accepts
              (λ what. submission readers request ≡ valid what)
              (m >>= λ index. valid (make index))
      index-Accepts make (valid index) h = h
      index-Accepts make (invalid e) h = tt

  pub add_ice_candidate-Same :
      (candidate mid : JString)
      → HoldsText candidate
      → HoldsText mid
      → Same readers
          (c_request json (NativeCall.add_ice_candidate r o x candidate mid number t))
          r
          (submit_add_ice_candidate r o x candidate mid number t)
  unfolding submit_add_ice_candidate after read_string read_optional_string submission
      optional_string input command_kind command_of required ◌>>=◌
  add_ice_candidate-Same null_string mid h k = tt
  add_ice_candidate-Same unreadable mid h k = tt
  add_ice_candidate-Same (java_string text) unreadable h k = tt
  add_ice_candidate-Same (java_string text) null_string h k =
      candidate-Same
        (c_request json
          (NativeCall.add_ice_candidate r o x (java_string text) null_string number t))
        text none λ millis e. rw (e, h) refl
  add_ice_candidate-Same (java_string text) (java_string mid) h k =
      candidate-Same
        (c_request json
          (NativeCall.add_ice_candidate r o x (java_string text) (java_string mid) number t))
        text (some mid) λ millis e. rw (e, h, k) refl

-- The thresholds of the C ABI need not be in order.
unsigned_any : (z : ℤ) (n : ℕ) (e e' : Text) → unsigned z e ≡ valid n → unsigned z e' ≡ valid n
unfolding unsigned
unsigned_any (negsuc m) n e e' h = ground (arith, h)
unsigned_any (pos m) n e e' h = elim (Bool-cases (ltb m (2 ^ 32))) [
  | inl l ↦ ground (arith, l, h)
  | inr l ↦ ground (arith, l, h)
]

module _ (readers : Readers) (json : List ℕ) (r o x low high t : ℤ) where
  pub set_data_channel_thresholds-Same :
      Same readers
        (c_request json (NativeCall.set_data_channel_thresholds r o x low high t))
        r
        (submit_set_data_channel_thresholds r o x low high t)
  unfolding submit_set_data_channel_thresholds submission optional_string input command_kind
      command_of ◌>>=◌
  set_data_channel_thresholds-Same =
      Same-bind readers asked r
        (unsigned low (codes "Low buffered amount threshold must not be negative")) _
        λ l el.
          Same-bind readers asked r
            (unsigned high (codes "High buffered amount threshold must not be negative")) _
            λ h eh.
              Same-bind readers asked r
                (refuse_when (ltb h l) (codes "Low buffered amount threshold must not exceed high"))
                _
                λ u eu. Same-with_handles readers asked r o t x _ λ millis e.
                  rw
                    (
                      e,
                      unsigned_any low l _ (codes "Invalid low buffered amount threshold") el,
                      unsigned_any high h _ (codes "Invalid high buffered amount threshold") eh,
                    )
                    refl
    where
      asked : Request
      asked = c_request json (NativeCall.set_data_channel_thresholds r o x low high t)
