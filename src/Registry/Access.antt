-- ===== src/Registry/Access.antt =====
-- The short synchronous steps of native/src/registry.rs: locks, lookups, fresh handles, events.
use kestara_webrtc.Base.{ℕ, ◌+◌, ◌%◌, ◌^◌, ◌++◌, [], ◌∷◌, Text}
use kestara_webrtc.Errors.{registry_poisoned, certificate_poisoned, unknown_peer, unknown_channel}
use kestara_webrtc.Events.{NativeEvent}
use kestara_webrtc.Map
use kestara_webrtc.Registry.State.{
  RuntimeState, Engine, lock_operations, PeerEntry, ChannelEntry, Spawned,
}
use kestara_webrtc.Registry.Task.{Task, pure, gets, modify, await, ok_or, check_lock, ◌>>=◌, ◌>>◌}

unfoldable pub lock_registry : Task (Unit {0})
lock_registry = do poisoned ← gets (λ s. s.poisoned); check_lock poisoned registry_poisoned

unfoldable pub lock_certificate : Task Text
lock_certificate = do
  poisoned ← gets (λ s. s.certificate_poisoned)
  check_lock poisoned certificate_poisoned
  gets (λ s. s.certificate)

-- `fetch_add(1)` returns the old value and wraps at 2 ^ 64.
unfoldable pub issue : RuntimeState → RuntimeState
issue s = record s { next_handle = (s.next_handle + 1) % 2 ^ 64; issued = s.issued + 1 }

unfoldable pub next_handle : Task ℕ
next_handle = do handle ← gets (λ s. s.next_handle); modify issue; pure handle

unfoldable pub push_event : NativeEvent → RuntimeState → RuntimeState
push_event event s = record s { events = s.events ++ (event ∷ []) }

unfoldable pub send_event : NativeEvent → Task (Unit {0})
send_event event = modify (push_event event)

unfoldable pub spawn : Spawned → Task (Unit {0})
spawn task = modify λ s. record s { spawned = task ∷ s.spawned }

unfoldable pub get_peer : ℕ → Task PeerEntry
get_peer handle = do
  lock_registry
  entry ← gets (λ s. Map.get handle s.peers)
  ok_or (unknown_peer handle) entry

unfoldable pub get_channel : ℕ → Task ChannelEntry
get_channel handle = do
  lock_registry
  entry ← gets (λ s. Map.get handle s.channels)
  ok_or (unknown_channel handle) entry

-- `peer.operations.lock().await`, the mutex named by the peer's handle
unfoldable pub lock_peer : Engine → ℕ → Task (Unit {0})
lock_peer eng handle = await eng (lock_operations handle) (λ _. tt)
