-- ===== src/Bridge/Operations.antt =====
-- What a request that native/src/c_bridge.rs accepts asks of the runtime.
use kestara_webrtc.Base.{ℕ, Option, List, Text, ◌≡◌, refl}
use kestara_webrtc.Registry.Types.{SessionDescription}
use kestara_webrtc.Runtime.Command.{Command, operation_handle}
use kestara_webrtc.Bridge.Checked.{
  Checked, valid, invalid, Accepts, Accepts-bind, accepted_one, ◌>>=◌,
}
use kestara_webrtc.Bridge.Arguments.{parse_description}
use kestara_webrtc.Bridge.Request.{
  Readers, Request, Kind, Submission, submits, completes_error, described, description_command,
}
use kestara_webrtc.Runtime.Table
use kestara_webrtc.Runtime.Table.{Runtimes}
use kestara_webrtc.Bridge.Boundary.{runtime_submit, asked, runtime_submit-valid}
use kestara_webrtc.Bridge.Submit.{command_of, submission}

-- The operation that a submission completes.
abbrev pub answers_for : Submission → ℕ
answers_for (submits command) = operation_handle command
answers_for (completes_error operation e) = operation

abbrev For : ℕ → Checked Submission → Type 0
For o m = Accepts (λ s. answers_for s ≡ o) m

described-For :
    (o : ℕ) (make : SessionDescription → Command) (d : Checked SessionDescription)
    → ((x : SessionDescription) → operation_handle (make x) ≡ o)
    → answers_for (described o make d) ≡ o
unfolding described
described-For o make (valid d) h = h d
described-For o make (invalid e) h = refl

For-bind {ℓ} :
    {A : Type ℓ} (o : ℕ) (m : Checked A) (f : A → Checked Submission)
    → ((a : A) → For o (f a))
    → For o (m >>= f)
For-bind o m f h = Accepts-bind (λ s. answers_for s ≡ o) m f h

description_command-For :
    (readers : Readers) (r : Request) (text : Option Text) (make : SessionDescription → Command)
    → ((x : SessionDescription) → operation_handle (make x) ≡ r.operation)
    → For r.operation (description_command readers r text make)
unfolding description_command
description_command-For readers r text make h = For-bind _ _ _ λ sdp.
    For-bind _ _ _
      λ number. described-For r.operation make (parse_description readers.description sdp number) h

command_of-For :
    (readers : Readers) (r : Request) (t : ℕ) (text secondary : Option Text) (bytes : List ℕ)
    (kind : Kind)
    → For r.operation (command_of readers r t text secondary bytes kind)
unfolding command_of operation_handle
command_of-For readers r t text secondary bytes Kind.create_peer =
    For-bind _ _ _ λ a. For-bind _ _ _ λ b. For-bind _ _ _ λ c. refl
command_of-For readers r t text secondary bytes Kind.restart_ice = refl
command_of-For readers r t text secondary bytes Kind.set_configuration =
    For-bind _ _ _ λ a. For-bind _ _ _ λ b. refl
command_of-For readers r t text secondary bytes Kind.create_description = For-bind _ _ _ λ a. refl
command_of-For readers r t text secondary bytes Kind.set_local_description =
    description_command-For readers r text (Command.set_local_description r.operation t r.target)
      λ d. refl
command_of-For readers r t text secondary bytes Kind.set_remote_description =
    description_command-For readers r text (Command.set_remote_description r.operation t r.target)
      λ d. refl
command_of-For readers r t text secondary bytes Kind.add_ice_candidate =
    For-bind _ _ _ λ a. For-bind _ _ _ λ b. For-bind _ _ _ λ c. refl
command_of-For readers r t text secondary bytes Kind.create_data_channel = For-bind _ _ _ λ a.
    For-bind _ _ _
      λ b. For-bind _ _ _ λ c. For-bind _ _ _ λ d. For-bind _ _ _ λ e. For-bind _ _ _ λ f. refl
command_of-For readers r t text secondary bytes Kind.send_text = For-bind _ _ _ λ a. refl
command_of-For readers r t text secondary bytes Kind.send_binary = refl
command_of-For readers r t text secondary bytes Kind.try_send_text = For-bind _ _ _ λ a. refl
command_of-For readers r t text secondary bytes Kind.try_send_binary = refl
command_of-For readers r t text secondary bytes Kind.data_channel_writable = refl
command_of-For readers r t text secondary bytes Kind.data_channel_outstanding_bytes = refl
command_of-For readers r t text secondary bytes Kind.set_data_channel_thresholds =
    For-bind _ _ _ λ a. For-bind _ _ _ λ b. refl
command_of-For readers r t text secondary bytes Kind.get_stats = refl
command_of-For readers r t text secondary bytes Kind.rotate_certificate = refl
command_of-For readers r t text secondary bytes Kind.close_data_channel = refl
command_of-For readers r t text secondary bytes Kind.close_peer = refl
command_of-For readers r t text secondary bytes Kind.close_runtime = refl

submission-For : (readers : Readers) (r : Request) → For r.operation (submission readers r)
unfolding submission
submission-For readers r = For-bind _ _ _ λ t. For-bind _ _ _ λ text. For-bind _ _ _ λ secondary.
    For-bind _ _ _
      λ bytes. For-bind _ _ _ λ kind. command_of-For readers r t text secondary bytes kind

-- A request that is accepted asks the runtime for its own operation, and for nothing else: it becomes a
-- command that carries the request's operation handle, whatever its kind, or an error that completes that
-- operation, and this is what the runtime is asked.
pub submission_answers :
    (readers : Readers) (r : Request) (s : Submission) (h : ℕ) (t : Runtimes)
    → submission readers r ≡ valid s
    → (answers_for s ≡ r.operation) × (runtime_submit readers h r t ≡ Table.request h (asked s) t)
submission_answers readers r s h t e = (
  accepted_one (λ x. answers_for x ≡ r.operation) (submission-For readers r) e,
  runtime_submit-valid readers h r t s e,
)
