-- ===== src/Bridge/Jni/Same.antt =====
-- When a native method of native/src/bridge.rs and a request of native/src/c_bridge.rs ask the same of a
-- runtime: the rules by which this is shown.
pub mod Commands
pub mod Descriptions
pub mod Fields
pub mod Peer
pub mod Configurations
use mathlib.Core.Path.{transport}
use kestara_webrtc.Base.{
  ℕ, zero, suc, ◌+◌, ◌-◌, ◌^◌, ◌≡◌, refl, Bool, true, false, Option, none, some, List, [], ◌∷◌,
  ◌++◌, Text, codes, ℤ, pos, negsuc, ◌==◌, ltb, if◌then◌else◌, arith, Bool-cases, inl, inr,
}
use kestara_webrtc.Base.Strings.{text_eq}
use kestara_webrtc.Base.Utf8.{from_utf8_lossy}
use kestara_webrtc.Registry.Types.{SessionDescription}
use kestara_webrtc.Runtime.Command.{Command}
use kestara_webrtc.Bridge.Checked.{Checked, valid, invalid, Accepts, accepted_one, ◌>>=◌, ◌>>◌}
use kestara_webrtc.Bridge.Arguments
use kestara_webrtc.Bridge.Arguments.{handle_from_jlong, optional_u16, parse_description}
use kestara_webrtc.Bridge.Configuration.{PeerDto, peer_configuration}
use kestara_webrtc.Bridge.Request.{
  Readers, Request, Kind, Input, null, at, Submission, submits, DataChannelDto, input,
  optional_string, required, command_kind, small, unsigned, wants_answer, described,
  description_command,
}
use kestara_webrtc.Bridge.Submit.{command_of, submission}
use kestara_webrtc.Bridge.Jni.Values.{
  Native, returns, throws, jni_error, JString, java_string, null_string, unreadable, Call, after,
  read_string, read_optional_string, operation_result, read_bytes, non_empty,
}
use kestara_webrtc.Bridge.Jni.Calls.{with_handles, on_runtime, submit_restart_ice}
use kestara_webrtc.Bridge.Jni.Methods.{NativeCall, native_call}

-- A number of the JVM as the unsigned one that the C ABI takes.
abbrev pub to_u64 : ℤ → ℕ
to_u64 (pos n) = n
to_u64 (negsuc n) = 2 ^ 64 - 1 - n

-- What the method asks of a runtime is what the request asks.
abbrev pub Same : Readers → Request → ℤ → Native Call → Type 0
Same readers request runtime (returns c) =
    (submission readers request ≡ valid c.what) × (to_u64 runtime ≡ c.runtime)
Same readers request runtime _ = Unit

pub handle_is : (z : ℤ) (n : ℕ) → handle_from_jlong z ≡ valid n → to_u64 z ≡ n
unfolding handle_from_jlong
handle_is (pos m) n e = ground (arith, e)
handle_is (negsuc m) n e = ground (arith, e)

module _ (readers : Readers) (request : Request) (runtime : ℤ) where
  Same-bind {ℓ} :
      {A : Type ℓ} (m : Checked A) (f : A → Checked Call)
      → ((a : A) → m ≡ valid a → Same readers request runtime (operation_result (f a)))
      → Same readers request runtime (operation_result (m >>= f))
  unfolding ◌>>=◌ operation_result
  Same-bind (valid a) f h = h a refl
  Same-bind (invalid e) f h = tt

  Same-after {ℓ} :
      {A : Type ℓ} (m : Native A) (f : A → Native Call)
      → ((a : A) → m ≡ returns a → Same readers request runtime (f a))
      → Same readers request runtime (after m f)
  unfolding after
  Same-after (returns a) f h = h a refl
  Same-after (throws e) f h = tt
  Same-after jni_error f h = tt

  -- A handle is the number that the C ABI takes.
  Same-handle :
      (z : ℤ) (f : ℕ → Checked Call)
      → Same readers request runtime (operation_result (f (to_u64 z)))
      → Same readers request runtime (operation_result (handle_from_jlong z >>= f))
  Same-handle z f h = Same-bind (handle_from_jlong z) f λ n e.
      transport (λ i. Same readers request runtime (operation_result (f (handle_is z n e i)))) h

  abbrev pub Asks : Submission → Type 0
  Asks what = submission readers request ≡ valid what

  Same-what :
      (m : Checked Submission)
      → Accepts Asks m
      → Same readers request runtime (
          operation_result (m >>= λ what. valid (record { runtime = to_u64 runtime; what = what })))
  unfolding ◌>>=◌ operation_result
  Same-what (valid what) h = (h, refl)
  Same-what (invalid e) h = tt

  Same-with_handles :
      (operation timeout target : ℤ) (make : ℕ → ℕ → ℕ → Checked Submission)
      → ((t : ℕ)
          → Arguments.timeout timeout ≡ valid t
          → Accepts Asks (make (to_u64 operation) t (to_u64 target)))
      → Same readers request runtime
          (operation_result (with_handles runtime operation timeout target make))
  unfolding with_handles
  Same-with_handles operation timeout target make h = Same-handle runtime _ (
      Same-handle operation _
        (Same-bind (Arguments.timeout timeout) _ λ t e. Same-handle target _ (Same-what _ (h t e))))

  Same-on_runtime :
      (operation timeout : ℤ) (make : ℕ → ℕ → Submission)
      → ((t : ℕ) → Arguments.timeout timeout ≡ valid t → Asks (make (to_u64 operation) t))
      → Same readers request runtime (operation_result (on_runtime runtime operation timeout make))
  unfolding on_runtime operation_result
  Same-on_runtime operation timeout make h =
      Same-handle runtime _
        (Same-handle operation _ (Same-bind (Arguments.timeout timeout) _ λ t e. (h t e, refl)))

-- A request whose parts can be read is what its command is.
abbrev pub IsText : Text → Type 0
IsText text = text_eq (from_utf8_lossy text) text ≡ true

abbrev pub Reads : (List ℕ → Text) → Input → Option Text → Type 0
Reads utf8_error i text = optional_string utf8_error i ≡ valid text

pub submission_of :
    (readers : Readers) (r : Request) (t : ℕ) (text secondary : Option Text) (bytes : List ℕ)
    (kind : Kind)
    → Arguments.timeout r.timeout_millis ≡ valid t
    → Reads readers.utf8_error r.text text
    → Reads readers.utf8_error r.secondary_text secondary
    → input r.data_bytes ≡ valid bytes
    → command_kind r.kind ≡ valid kind
    → submission readers r ≡ command_of readers r t text secondary bytes kind
unfolding submission ◌>>=◌
submission_of readers r t text secondary bytes kind et ex es eb ek = rw (et, ex, es, eb, ek) refl
