-- ===== src/Bridge/Jni/Buffers.antt =====
-- A message that native/src/bridge.rs hands over, and the buffer that keeps it until the client releases
-- it.
use kestara_webrtc.Base.{
  ℕ, ◌+◌, ◌%◌, ◌<◌, ◌^◌, ◌≡◌, refl, ap, Bool, true, false, if◌then◌else◌, Option, none, some, List,
  ◌∷◌, ◌==◌, length, ltb, pos, arith, Bool-cases, inl, inr, ==_self,
}
use mathlib.Core.Path.{subst}
use kestara_webrtc.Events.{NativeEvent}
use kestara_webrtc.Events.Kind
use kestara_webrtc.Map
use kestara_webrtc.Map.{get-remove, get-insert}
use kestara_webrtc.Registry.Delivery.{Buffer, or_no_bytes}
use kestara_webrtc.Runtime.Table
use kestara_webrtc.Runtime.Table.{
  Controller, Runtimes, Answer, polled, view, nothing, request, serve, add_buffer, remove_buffer,
  get_runtime, set_runtime, found,
}
use kestara_webrtc.Runtime.Table.Kept.{Holds, Uses, Uses-Holds}
use kestara_webrtc.Runtime.Table.Lookup.{stored_runtime, polled_event}
use kestara_webrtc.Bridge.Checked.{Checked, valid, ◌>>=◌}
use kestara_webrtc.Bridge.Arguments.{timeout, handle_from_jlong, handle_to_jlong}
use kestara_webrtc.Bridge.Jni.Values.{returns}
use kestara_webrtc.Bridge.Jni.Methods.{native_release_buffer, on_handle, void}
use kestara_webrtc.Bridge.Jni.Poll.{
  java_event, shown, jlong, or_zero, registered, hand_over, after_poll, native_poll_runtime_event,
}

pub small_jlong : (n : ℕ) → n < 2 ^ 63 → jlong n ≡ pos n
unfolding jlong or_zero handle_to_jlong
small_jlong n h = elim (Bool-cases (ltb n (2 ^ 63))) [
  | inl e ↦ rw e refl
  | inr e ↦ absurd (ground (arith, e, h))
]

-- The buffer `b` of runtime `h`
abbrev in_controller : ℕ → Option Controller → Option Buffer
in_controller b none = none
in_controller b (some c) = Map.get b c.buffers

abbrev pub buffer_at : ℕ → ℕ → Runtimes → Option Buffer
buffer_at h b t = in_controller b (Map.get h t.runtimes)

module _ (h permit millis : ℕ) (c : Controller) (t : Runtimes) (event : NativeEvent)
    (rest : List NativeEvent) (clear : t.poisoned ≡ false) (there : Map.get h t.runtimes ≡ some c)
    (usable : c.buffers_poisoned ≡ false) (queue : c.events ≡ event ∷ rest)
    (no_wake : (event.kind == Kind.wake) ≡ false) (keeps : event.delivery_permit ≡ some permit)
    (small : t.next_buffer < 2 ^ 63) where
  abbrev kept : Buffer
  kept = record { bytes = or_no_bytes event.payload; delivery_permit = some permit }

  abbrev taken : Controller
  taken = record c { events = rest }

  abbrev holding : Controller
  holding = record taken { buffers = Map.insert t.next_buffer kept c.buffers }

  abbrev polled_once : Runtimes
  polled_once = set_runtime h taken t

  abbrev held : Runtimes
  held = set_runtime h holding (record polled_once { next_buffer = (t.next_buffer + 1) % 2 ^ 64 })

  request_register :
      request h (Table.register_delivery_buffer event.payload permit) polled_once
      ≡ (valid (view t.next_buffer (length (or_no_bytes event.payload))), held)
  unfolding request found serve add_buffer set_runtime
  request_register = rw (stored_runtime h c t clear taken, usable) refl

  pub poll_gives :
      native_poll_runtime_event (pos h) (pos millis) t
      ≡ (returns (some (java_event event (pos t.next_buffer) none (shown event))), held)
  unfolding native_poll_runtime_event handle_from_jlong timeout after_poll hand_over registered
      java_event shown ◌>>=◌
  poll_gives =
      rw
        (
          polled_event h c t clear event rest there queue no_wake,
          keeps,
          request_register,
          small_jlong t.next_buffer small,
        )
        refl

  held-Holds : Holds h t.next_buffer kept held
  unfolding set_runtime
  held-Holds = record {
    controller = holding;
    clear = clear;
    there = ground (arith, get-insert h h holding (Map.insert h taken t.runtimes), ==_self h);
    usable = usable;
    buffer =
        ground
          (arith, get-insert t.next_buffer t.next_buffer kept c.buffers, ==_self t.next_buffer);
    older = omega (arith, small);
  }

-- The release of a buffer that is there.
module _ (h b : ℕ) (kept : Buffer) (u : Runtimes) (holds : Holds h b kept u) where
  abbrev without : Controller
  without = record holds.controller { buffers = Map.remove b holds.controller.buffers }

  request_free : request h (Table.free_buffer b) u ≡ (valid nothing, set_runtime h without u)
  unfolding request found serve remove_buffer get_runtime
  request_free =
      rw (holds.clear, holds.there) (unlocked holds.controller.buffers_poisoned _ _ holds.usable)
    where
      unlocked :
          (poisoned : Bool) (x y : Checked Answer × Runtimes)
          → poisoned ≡ false
          → (if poisoned then x else y) ≡ y
      unlocked true x y e = absurd (ground (arith, e))
      unlocked false x y e = refl

  release_gives : native_release_buffer (pos h) (pos b) u ≡ (returns tt, set_runtime h without u)
  unfolding native_release_buffer on_handle void handle_from_jlong
  release_gives = rw request_free refl

  kept_in : buffer_at h b u ≡ some kept
  kept_in = rw (holds.there, holds.buffer) refl

  gone_from : buffer_at h b (set_runtime h without u) ≡ none
  unfolding set_runtime
  gone_from =
      rw
        (
          get-insert h h without u.runtimes,
          ==_self h,
          get-remove b b holds.controller.buffers,
          ==_self b,
        )
        refl

-- A message that is polled through the JVM is handed over with the handle of a buffer, which keeps its
-- bytes and its permit until the client releases that handle, whatever else is asked of this and other
-- runtimes before: then the release succeeds, and the buffer is gone. In between neither the runtime nor the
-- buffer is released, and the counter of buffers is below 2 ^ 64 - 1 at each request. At the poll the runtime
-- exists and its locks are not poisoned, the message is at the head of its queue and carries a permit, and
-- the counter of buffers is below 2 ^ 63.
pub message_kept_until_released :
    (h permit millis : ℕ) (c : Controller) (t u : Runtimes) (event : NativeEvent)
    (rest : List NativeEvent)
    → t.poisoned ≡ false
    → Map.get h t.runtimes ≡ some c
    → c.buffers_poisoned ≡ false
    → c.events ≡ event ∷ rest
    → (event.kind == Kind.wake) ≡ false
    → event.delivery_permit ≡ some permit
    → t.next_buffer < 2 ^ 63
    → let b = t.next_buffer in
      let polled = native_poll_runtime_event (pos h) (pos millis) t in
      let released = native_release_buffer (pos h) (pos b) u in
      let message : Buffer = record {
        bytes = or_no_bytes event.payload;
        delivery_permit = some permit;
      } in
      Uses h b message polled.1 u
      → (polled.0 ≡ returns (some (java_event event (pos b) none (shown event))))
        × (buffer_at h b u ≡ some message)
        × (released.0 ≡ returns tt)
        × (buffer_at h b released.1 ≡ none)
message_kept_until_released h permit millis c t u event rest clear there usable queue no_wake keeps
      small between =
    let gives =
      poll_gives h permit millis c t event rest clear there usable queue no_wake keeps small in
    let begin =
      held-Holds h permit millis c t event rest clear there usable queue no_wake keeps small in
    let holds =
      Uses-Holds h t.next_buffer _
        (subst
          (λ v.
            Uses h t.next_buffer
              (record { bytes = or_no_bytes event.payload; delivery_permit = some permit }) v u)
          (ap (λ x. x.1) gives) between)
        begin in
    let release = release_gives h t.next_buffer _ u holds in
    (
      ap (λ x. x.0) gives,
      kept_in h t.next_buffer _ u holds,
      ap (λ x. x.0) release,
      rw release (gone_from h t.next_buffer _ u holds),
    )
