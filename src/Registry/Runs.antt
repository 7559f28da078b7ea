-- ===== src/Registry/Runs.antt =====
-- How the first steps of a task of native/src/registry.rs run in a given state.
use kestara_webrtc.Base.{ℕ, ◌≡◌, false, none, some, List, ◌∷◌, arith}
use kestara_webrtc.Errors.{unknown_peer, unknown_channel}
use kestara_webrtc.Map
use kestara_webrtc.Registry.State.{RuntimeState, Engine, PeerEntry, ChannelEntry, Call}
use kestara_webrtc.Registry.Task.{fails, Task, ok_or, check_lock, await, waited, ◌>>=◌}
use kestara_webrtc.Registry.Access.{lock_registry, get_peer, get_channel}

-- No other task runs while one waits, and no deadline passes.
pub record Alone (eng : Engine) : Type 0 where
  pub still : (s : RuntimeState) → eng.interfere s ≡ s
  pub in_time : (calls : List Call) → eng.expired calls ≡ false

module _ {A : Type 0} (s : RuntimeState) where
  pub lock_bind : (f : Unit {0} → Task A) → s.poisoned ≡ false → (lock_registry >>= f) s ≡ f tt s
  unfolding lock_registry ◌>>=◌ check_lock
  lock_bind f e = ground arith

  pub get_peer_bind :
      (h : ℕ) (entry : PeerEntry) (f : PeerEntry → Task A)
      → s.poisoned ≡ false
      → Map.get h s.peers ≡ some entry
      → (get_peer h >>= f) s ≡ f entry s
  unfolding get_peer lock_registry ◌>>=◌ check_lock ok_or
  get_peer_bind h entry f e p = ground arith

  pub get_peer_missing :
      (h : ℕ) (f : PeerEntry → Task A)
      → s.poisoned ≡ false
      → Map.get h s.peers ≡ none
      → (get_peer h >>= f) s ≡ (fails (unknown_peer h), s)
  unfolding get_peer lock_registry ◌>>=◌ check_lock ok_or
  get_peer_missing h f e p = ground arith

  pub get_channel_bind :
      (h : ℕ) (entry : ChannelEntry) (f : ChannelEntry → Task A)
      → s.poisoned ≡ false
      → Map.get h s.channels ≡ some entry
      → (get_channel h >>= f) s ≡ f entry s
  unfolding get_channel lock_registry ◌>>=◌ check_lock ok_or
  get_channel_bind h entry f e p = ground arith

  pub get_channel_missing :
      (h : ℕ) (f : ChannelEntry → Task A)
      → s.poisoned ≡ false
      → Map.get h s.channels ≡ none
      → (get_channel h >>= f) s ≡ (fails (unknown_channel h), s)
  unfolding get_channel lock_registry ◌>>=◌ check_lock ok_or
  get_channel_missing h f e p = ground arith

module _ {A B : Type 0} (eng : Engine) (alone : Alone eng) where
  pub await_bind :
      (call : Call) (answer : List Call → A) (f : A → Task B) (s : RuntimeState)
      → (await eng call answer >>= f) s
        ≡ f (answer (call ∷ s.trace)) (record s { trace = call ∷ s.trace })
  unfolding await waited ◌>>=◌
  await_bind call answer f s =
      ground
        (arith, alone.in_time (call ∷ s.trace), alone.still (record s { trace = call ∷ s.trace }))
