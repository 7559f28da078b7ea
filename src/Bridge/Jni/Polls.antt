-- ===== src/Bridge/Jni/Polls.antt =====
-- What a client polls through native/src/bridge.rs and through native/src/c_bridge.rs.
use kestara_webrtc.Base.{
  ℕ, ◌<◌, ◌^◌, ◌≡◌, refl, ap, true, false, Option, none, some, List, ◌∷◌, ◌==◌, ℤ, pos,
}
use kestara_webrtc.Events.{NativeEvent}
use kestara_webrtc.Events.Kind
use kestara_webrtc.Map
use kestara_webrtc.Wire.Event.{WireEvent, encode_event, decode_event}
use kestara_webrtc.Wire.Event.RoundTrip.{clipped, IsInRange, decode_event-encode_event}
use kestara_webrtc.Runtime.Table.{Controller, Runtimes}
use kestara_webrtc.Runtime.Table.Lookup.{polled_event}
use kestara_webrtc.Bridge.Checked.{Checked, valid, invalid, ◌>>=◌}
use kestara_webrtc.Bridge.Arguments.{timeout, handle_from_jlong}
use kestara_webrtc.Bridge.Boundary.{runtime_poll, poll_within, encoded}
use kestara_webrtc.Bridge.Jni.Values.{returns}
use kestara_webrtc.Bridge.Jni.Poll.{
  JvmNativeEvent, java_event, shown, hand_over, after_poll, native_poll_runtime_event,
}
use kestara_webrtc.Bridge.Jni.Buffers.{small_jlong, poll_gives}
use kestara_webrtc.Bridge.Jni.Same.{to_u64}

-- The bytes that a client of the JVM has: those of the buffer, or those of the event.
abbrev bytes_of : Option (List ℕ) → Option (List ℕ) → Option (List ℕ)
bytes_of (some direct) bytes = some direct
bytes_of none bytes = bytes

-- What a client of the JVM sees, as a client of the C ABI would see it.
abbrev pub seen : JvmNativeEvent → WireEvent
seen o = record {
  kind = pos o.kind;
  peer_handle = to_u64 o.peer;
  channel_handle = to_u64 o.channel;
  operation_handle = to_u64 o.operation;
  number = o.number;
  text = clipped o.text;
  secondary_text = clipped o.secondary_text;
  payload = clipped (bytes_of o.direct o.bytes);
}

abbrev pub decoded : Checked (List ℕ) → Option WireEvent
decoded (valid bytes) = decode_event bytes
decoded (invalid e) = none

-- The event is one of those that native/src/registry.rs sends: a permit comes with a binary message,
-- which has its bytes, or with an event without bytes.
pub data Carries (event : NativeEvent) : Type 0 where
  no_permit : event.delivery_permit ≡ none → Carries event
  with_bytes :
      (permit : ℕ) (bytes : List ℕ)
      → event.delivery_permit ≡ some permit
      → (event.kind == Kind.data_channel_binary) ≡ true
      → event.payload ≡ some bytes
      → Carries event
  without_bytes :
      (permit : ℕ)
      → event.delivery_permit ≡ some permit
      → (event.kind == Kind.data_channel_binary) ≡ false
      → event.payload ≡ none
      → Carries event

module _ (h millis : ℕ) (c : Controller) (t : Runtimes) (event : NativeEvent)
    (rest : List NativeEvent) (clear : t.poisoned ≡ false) (there : Map.get h t.runtimes ≡ some c)
    (queue : c.events ≡ event ∷ rest) (no_wake : (event.kind == Kind.wake) ≡ false)
    (range : IsInRange event) where
  c_polls : (runtime_poll true h (pos millis) t).0 ≡ valid (encode_event event)
  unfolding runtime_poll poll_within timeout encoded
  c_polls = rw (polled_event h c t clear event rest there queue no_wake) refl

  -- The handles have 63 bits.
  module _ (peer : event.peer_handle < 2 ^ 63) (channel : event.channel_handle < 2 ^ 63)
      (operation : event.operation_handle < 2 ^ 63) where
    seen_as :
        (message : ℤ) (bytes direct : Option (List ℕ))
        → bytes_of direct bytes ≡ event.payload
        → decoded (runtime_poll true h (pos millis) t).0
          ≡ some (seen (java_event event message bytes direct))
    unfolding java_event
    seen_as message bytes direct e =
        rw
          (
            c_polls,
            small_jlong event.peer_handle peer,
            small_jlong event.channel_handle channel,
            small_jlong event.operation_handle operation,
            e,
          )
          (decode_event-encode_event event range)

    without_permit :
        event.delivery_permit ≡ none
        → (native_poll_runtime_event (pos h) (pos millis) t).0
          ≡ returns (some (java_event event (pos 0) event.payload none))
    unfolding native_poll_runtime_event handle_from_jlong timeout after_poll hand_over ◌>>=◌
    without_permit e = rw (polled_event h c t clear event rest there queue no_wake, e) refl

    abbrev Both : Type 0
    Both =
        (o : JvmNativeEvent) × ((native_poll_runtime_event (pos h) (pos millis) t).0
          ≡ returns (some o))
        × (decoded (runtime_poll true h (pos millis) t).0 ≡ some (seen o))

    module _ (usable : c.buffers_poisoned ≡ false) (small : t.next_buffer < 2 ^ 63) where
      with_permit :
          (permit : ℕ)
          → event.delivery_permit ≡ some permit
          → (native_poll_runtime_event (pos h) (pos millis) t).0
            ≡ returns (some (java_event event (pos t.next_buffer) none (shown event)))
      with_permit permit keeps =
          ap (λ x. x.0)
            (poll_gives h permit millis c t event rest clear there usable queue no_wake keeps small)

      both : Carries event → Both
      unfolding shown
      both (no_permit e) = (
        java_event event (pos 0) event.payload none,
        without_permit e,
        seen_as (pos 0) event.payload none refl,
      )
      both (with_bytes permit bytes keeps binary payload) = (
        java_event event (pos t.next_buffer) none (shown event),
        with_permit permit keeps,
        seen_as (pos t.next_buffer) none (shown event) (rw (binary, payload) refl),
      )
      both (without_bytes permit keeps other payload) = (
        java_event event (pos t.next_buffer) none (shown event),
        with_permit permit keeps,
        seen_as (pos t.next_buffer) none (shown event) (rw (other, payload) refl),
      )

-- A client of the JVM and one of the C ABI that poll the same runtime see the same event: what Kotlin
-- decodes of the bytes that the C ABI returns is what the object of the JVM shows, with the bytes of a
-- message in its buffer, and each text and payload cut at 2 ^ 31 - 1 bytes. The runtime exists and its
-- locks are not poisoned; the event is at the head of the queue, is no wake event, fits the fields of the
-- wire and has the form of those that the registry sends; and its handles and the number of buffers made
-- so far have 63 bits.
pub polls_agree :
    (h millis : ℕ) (c : Controller) (t : Runtimes) (event : NativeEvent) (rest : List NativeEvent)
    → t.poisoned ≡ false
    → Map.get h t.runtimes ≡ some c
    → c.buffers_poisoned ≡ false
    → c.events ≡ event ∷ rest
    → (event.kind == Kind.wake) ≡ false
    → IsInRange event
    → Carries event
    → event.peer_handle < 2 ^ 63
    → event.channel_handle < 2 ^ 63
    → event.operation_handle < 2 ^ 63
    → t.next_buffer < 2 ^ 63
    → (o : JvmNativeEvent) × ((native_poll_runtime_event (pos h) (pos millis) t).0
        ≡ returns (some o))
      × (decoded (runtime_poll true h (pos millis) t).0 ≡ some (seen o))
polls_agree h millis c t event rest clear there usable queue no_wake range carries peer channel
      operation small =
    both h millis c t event rest clear there queue no_wake range peer channel operation usable small
      carries
