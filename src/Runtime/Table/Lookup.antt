-- ===== src/Runtime/Table/Lookup.antt =====
-- Finding a runtime of native/src/runtime.rs in the table, and polling it.
use kestara_webrtc.Base.{ℕ, ◌≡◌, refl, false, some, List, ◌∷◌, ◌==◌, ==_self}
use kestara_webrtc.Events.{NativeEvent, poll}
use kestara_webrtc.Events.Kind
use kestara_webrtc.Map
use kestara_webrtc.Map.{get-insert}
use kestara_webrtc.Bridge.Checked.{valid}
use kestara_webrtc.Runtime.Table.{
  Controller, Runtimes, polled, poll_event, request, serve, found, get_runtime, set_runtime,
}

module _ (h : ℕ) (c : Controller) (t : Runtimes) (clear : t.poisoned ≡ false) where
  found_runtime : Map.get h t.runtimes ≡ some c → get_runtime h t ≡ valid c
  unfolding get_runtime
  found_runtime e = rw (clear, e) refl

  pub stored_runtime : (c' : Controller) → get_runtime h (set_runtime h c' t) ≡ valid c'
  unfolding get_runtime set_runtime
  stored_runtime c' = rw (clear, get-insert h h c' t.runtimes, ==_self h) refl

  pub polled_event :
      (event : NativeEvent) (rest : List NativeEvent)
      → Map.get h t.runtimes ≡ some c
      → c.events ≡ event ∷ rest
      → (event.kind == Kind.wake) ≡ false
      → request h poll_event t
        ≡ (valid (polled (some event)), set_runtime h (record c { events = rest }) t)
  unfolding request found serve poll
  polled_event event rest there queue no_wake = rw (found_runtime there, queue, no_wake) refl
