-- ===== src/Bridge/Jni/Poll.antt =====
-- `nativePollRuntimeEvent` of native/src/bridge.rs on the table of runtimes. A buffer that the JVM cannot
-- make, or a string that it cannot, is not modelled.
use kestara_webrtc.Base.{ℕ, Option, none, some, List, Text, ℤ, pos, ◌==◌, if◌then◌else◌}
use kestara_webrtc.Events.{NativeEvent}
use kestara_webrtc.Events.Kind
use kestara_webrtc.Registry.Delivery.{or_no_bytes}
use kestara_webrtc.Runtime.Table
use kestara_webrtc.Runtime.Table.{
  Controller, Runtimes, Answer, nothing, polled, view, shuts_down, request, serve, get_runtime,
  set_runtime,
}
use kestara_webrtc.Bridge.Checked.{Checked, valid, invalid, ◌>>=◌}
use kestara_webrtc.Bridge.Arguments.{timeout, handle_from_jlong, handle_to_jlong}
use kestara_webrtc.Bridge.Jni.Values.{Native, returns, throws}

-- The object that the client is given. `direct` is what its view of a buffer shows.
pub record JvmNativeEvent : Type 0 where
  pub kind : ℕ
  pub peer : ℤ
  pub channel : ℤ
  pub operation : ℤ
  pub text : Option Text
  pub secondary_text : Option Text
  pub number : ℤ
  pub bytes : Option (List ℕ)
  pub message_handle : ℤ
  pub direct : Option (List ℕ)

-- `handle_to_jlong(handle).unwrap_or_default()`
unfoldable pub or_zero : Checked ℤ → ℤ
or_zero (valid z) = z
or_zero (invalid e) = pos 0

unfoldable pub jlong : ℕ → ℤ
unfolding or_zero
jlong handle = or_zero (handle_to_jlong handle)

unfoldable pub java_event :
    NativeEvent → (message_handle : ℤ) → (bytes direct : Option (List ℕ)) → JvmNativeEvent
unfolding jlong
java_event event message_handle bytes direct = record {
  kind = event.kind;
  peer = jlong event.peer_handle;
  channel = jlong event.channel_handle;
  operation = jlong event.operation_handle;
  text = event.text;
  secondary_text = event.secondary_text;
  number = event.number;
  bytes = bytes;
  message_handle = message_handle;
  direct = direct;
}

-- Only a binary message shows its buffer.
unfoldable pub shown : NativeEvent → Option (List ℕ)
shown event =
    if event.kind == Kind.data_channel_binary then some (or_no_bytes event.payload) else none

-- What follows the registration of the buffer that keeps the event's permit.
unfoldable pub registered :
    NativeEvent → Checked Answer × Runtimes → Native (Option JvmNativeEvent) × Runtimes
unfolding jlong shown
registered event (valid (view handle size), t) =
    (returns (some (java_event event (jlong handle) none (shown event))), t)
registered event (valid _, t) = (returns none, t)
registered event (invalid e, t) = (throws e, t)

unfoldable pub hand_over :
    ℕ → NativeEvent → Option ℕ → Runtimes → Native (Option JvmNativeEvent) × Runtimes
hand_over h event none t = (returns (some (java_event event (pos 0) event.payload none)), t)
hand_over h event (some permit) t =
    registered event (request h (Table.register_delivery_buffer event.payload permit) t)

unfoldable pub after_poll :
    ℕ → Checked Answer × Runtimes → Native (Option JvmNativeEvent) × Runtimes
after_poll h (valid (polled (some event)), t) = hand_over h event event.delivery_permit t
after_poll h (valid _, t) = (returns none, t)
after_poll h (invalid e, t) = (throws e, t)

-- The runtime's handle is read before the timeout.
unfoldable pub native_poll_runtime_event :
    (runtime timeout_millis : ℤ) → Runtimes → Native (Option JvmNativeEvent) × Runtimes
unfolding after_poll
native_poll_runtime_event runtime timeout_millis t =
    elim (do h ← handle_from_jlong runtime; millis ← timeout timeout_millis; valid h) [
      | valid h ↦ after_poll h (request h Table.poll_event t)
      | invalid e ↦ (throws e, t)
    ]
