-- ===== src/Bridge/Boundary.antt =====
-- The C functions of native/src/c_bridge.rs on the table of runtimes, and the boundary that turns their
-- results into a status. The pointers that a function writes to are modelled as present or null, and
-- what is written as a value.
use kestara_webrtc.Base.{
  ℕ, Bool, true, false, Option, none, some, List, [], Text, codes, ℤ, ◌≡◌, refl,
}
use kestara_webrtc.Wire.Event.{encode_event}
use kestara_webrtc.Runtime.Table
use kestara_webrtc.Runtime.Table.{
  Controller, Runtimes, Answer, polled, request, serve, get_runtime, certificate_pem,
  certificate_fingerprint,
}
use kestara_webrtc.Bridge.Checked.{Checked, valid, invalid}
use kestara_webrtc.Bridge.Arguments.{timeout}
use kestara_webrtc.Bridge.Request.{Readers, Request, Submission, submits, completes_error}
use kestara_webrtc.Bridge.Submit.{submission}

-- What `catch_unwind` gives of an operation that returns a `Result`.
pub data Ran {ℓ} (A : Type ℓ) : Type ℓ where
  ran : Checked A → Ran A
  panicked : Ran A

-- The status, and what is written to the output and to the error, each of which may be null.
pub record Written {ℓ} (A : Type ℓ) : Type ℓ where
  pub status : ℕ
  pub output : Option A
  pub error : Option Text

-- `write_error`. `room` tells that the pointer is not null.
unfoldable pub write_error : (room : Bool) → Text → Option Text
write_error true text = some text
write_error false text = none

unfoldable pub boundary {ℓ} : {A : Type ℓ} → (room : Bool) → Ran A → Written A
boundary room (ran (valid a)) = record { status = 0; output = some a; error = none }
boundary room (ran (invalid e)) = record { status = 1; output = none; error = write_error room e }
boundary room panicked = record {
  status = 2;
  output = none;
  error = write_error room (codes "The native WebRTC boundary panicked");
}

-- A function whose output pointer is null does nothing.
unfoldable pub output_string : (value_out : Bool) → Checked Text → Checked Text
output_string true operation = operation
output_string false operation = invalid (codes "The value output pointer is null")

unfoldable pub runtime_certificate_pem : (value_out : Bool) → ℕ → Runtimes → Checked Text
runtime_certificate_pem value_out h t = output_string value_out (certificate_pem h t)

unfoldable pub runtime_certificate_fingerprint :
    (Text → List Text) → (value_out : Bool) → ℕ → Runtimes → Checked Text
runtime_certificate_fingerprint fingerprints value_out h t =
    output_string value_out (certificate_fingerprint fingerprints h t)

-- `runtime::submit` or `runtime::complete_error`
unfoldable pub asked : Submission → Table.Request
asked (submits command) = Table.submit command
asked (completes_error operation e) = Table.complete_error operation e

ask_checked : Checked Submission → ℕ → Runtimes → Checked Answer × Runtimes
ask_checked (valid what) h t = request h (asked what) t
ask_checked (invalid e) h t = (invalid e, t)

unfoldable pub runtime_submit : Readers → ℕ → Request → Runtimes → Checked Answer × Runtimes
unfolding ask_checked
runtime_submit readers h r t = ask_checked (submission readers r) h t

-- The bytes of the event, or none when the wait is over without one.
unfoldable pub encoded : Checked Answer × Runtimes → Checked (List ℕ) × Runtimes
encoded (valid (polled (some event)), t) = (valid (encode_event event), t)
encoded (valid answer, t) = (valid [], t)
encoded (invalid e, t) = (invalid e, t)

unfoldable pub poll_within : Checked ℕ → ℕ → Runtimes → Checked (List ℕ) × Runtimes
unfolding encoded
poll_within (valid millis) h t = encoded (request h Table.poll_event t)
poll_within (invalid e) h t = (invalid e, t)

unfoldable pub runtime_poll :
    (event_out : Bool) → ℕ → (timeout_millis : ℤ) → Runtimes → Checked (List ℕ) × Runtimes
unfolding poll_within
runtime_poll true h timeout_millis t = poll_within (timeout timeout_millis) h t
runtime_poll false h timeout_millis t = (invalid (codes "The event output pointer is null"), t)

unfoldable pub runtime_wake : ℕ → Runtimes → Checked Answer × Runtimes
runtime_wake h t = request h Table.wake_up t

unfoldable pub runtime_release : ℕ → Runtimes → Checked Answer × Runtimes
runtime_release h t = request h Table.release t

pub runtime_submit-valid :
    (readers : Readers) (h : ℕ) (r : Request) (t : Runtimes) (what : Submission)
    → submission readers r ≡ valid what
    → runtime_submit readers h r t ≡ request h (asked what) t
unfolding runtime_submit ask_checked
runtime_submit-valid readers h r t what e = rw e refl
