-- ===== src/Registry/Still.antt =====
-- How a task of native/src/registry.rs ends that, left alone, calls the library once.
use kestara_webrtc.Base.{ℕ, ◌≡◌, refl, ◌∙◌, false, some, List, ◌∷◌, arith}
use kestara_webrtc.Errors.{Attempt}
use kestara_webrtc.Events.{Result, ok, err}
use kestara_webrtc.Map
use kestara_webrtc.Registry.State.{
  RuntimeState, Engine, PeerEntry, ChannelEntry, Call, lock_operations, Reply, good, bad, TrySent,
  sent, buffer_full, refused,
}
use kestara_webrtc.Registry.Task.{
  Task, done, fails, dropped, continue, pure, gets, fail, await, or_failed, of_result, ◌>>=◌,
}
use kestara_webrtc.Registry.Access.{get_peer, get_channel, lock_peer}
use kestara_webrtc.Registry.Runs.{Alone, get_peer_bind, get_channel_bind, await_bind}
use kestara_webrtc.Registry.Channels

abbrev pub Still : {A : Type 0} → Task A → Type 0
Still m = (s : RuntimeState) → (m s).1 ≡ s

module _ {A : Type 0} where
  pub Still-pure : (a : A) → Still (pure a)
  unfolding pure
  Still-pure a s = refl

  pub Still-gets : (f : RuntimeState → A) → Still (gets f)
  unfolding gets
  Still-gets f s = refl

  pub Still-or_failed : (attempt : Attempt) (r : Reply A) → Still (or_failed attempt r)
  unfolding or_failed pure fail
  Still-or_failed attempt (good a) s = refl
  Still-or_failed attempt (bad text) s = refl

  pub Still-of_result : (r : Result A) → Still (of_result r)
  unfolding of_result pure fail
  Still-of_result (ok a) s = refl
  Still-of_result (err e) s = refl

pub Still-try_outcome : (attempt : Attempt) (r : TrySent) → Still (Channels.try_outcome attempt r)
unfolding Channels.try_outcome pure fail
Still-try_outcome attempt sent s = refl
Still-try_outcome attempt buffer_full s = refl
Still-try_outcome attempt (refused text) s = refl

module _ {A B : Type 0} where
  pub Still-bind :
      (m : Task A) (f : A → Task B) → Still m → ((a : A) → Still (f a)) → Still (m >>= f)
  unfolding ◌>>=◌
  Still-bind m f h k s = go (m s).0 (m s).1 (h s)
    where
      go : (r : _) (t : RuntimeState) → t ≡ s → (continue r f t).1 ≡ s
      go (done a) t e = k a t ∙ e
      go (fails e') t e = e
      go dropped t e = e

  -- A task that runs as `n` does in `t`, where what follows changes nothing.
  ends_in :
      (m n : Task A) (g : A → Task B) (s t : RuntimeState)
      → m s ≡ n t
      → Still n
      → ((a : A) → Still (g a))
      → ((m >>= g) s).1 ≡ t
  unfolding ◌>>=◌
  ends_in m n g s t e h k = rw e (Still-bind n g h k t)

module _ (eng : Engine) (alone : Alone eng) (s : RuntimeState) (clear : s.poisoned ≡ false) where
  module _ {R A B : Type 0} where
    pub locked_call :
        (peer h : ℕ) (entry : PeerEntry) (call : PeerEntry → Call) (answer : List Call → R)
        (k : R → Task A) (g : A → Task B)
        → some peer ≡ some h
        → Map.get h s.peers ≡ some entry
        → ((r : R) → Still (k r))
        → ((a : A) → Still (g a))
        → (((get_peer peer >>= λ e. lock_peer eng peer >>= λ _. await eng (call e) answer >>= k)
              >>= g)
            s).1
          ≡ record s { trace = call entry ∷ lock_operations peer ∷ s.trace }
    unfolding lock_peer
    locked_call peer h entry call answer k g same p still_k still_g =
        let found : Map.get peer s.peers ≡ some entry = ground (arith, p) in
        ends_in _ (k (answer (call entry ∷ lock_operations peer ∷ s.trace))) g s _
          (get_peer_bind s peer entry _ clear found
            ∙ await_bind eng alone (lock_operations peer) _ _ s
            ∙ await_bind eng alone (call entry) answer k
                (record s { trace = lock_operations peer ∷ s.trace }))
          (still_k _) still_g

    pub channel_call :
        (target h : ℕ) (entry : ChannelEntry) (call : ChannelEntry → Call) (answer : List Call → R)
        (k : R → Task A) (g : A → Task B)
        → some target ≡ some h
        → Map.get h s.channels ≡ some entry
        → ((r : R) → Still (k r))
        → ((a : A) → Still (g a))
        → (((get_channel target >>= λ e. await eng (call e) answer >>= k) >>= g) s).1
          ≡ record s { trace = call entry ∷ s.trace }
    channel_call target h entry call answer k g same p still_k still_g =
        let found : Map.get target s.channels ≡ some entry = ground (arith, p) in
        ends_in _ (k (answer (call entry ∷ s.trace))) g s _
          (get_channel_bind s target entry _ clear found
            ∙ await_bind eng alone (call entry) answer k s)
          (still_k _) still_g

    pub locked_send :
        (target h : ℕ) (entry : ChannelEntry) (peer : PeerEntry) (call : ChannelEntry → Call)
        (answer : List Call → R) (k : R → Task A) (g : A → Task B)
        → some target ≡ some h
        → Map.get h s.channels ≡ some entry
        → Map.get entry.peer_handle s.peers ≡ some peer
        → ((r : R) → Still (k r))
        → ((a : A) → Still (g a))
        → (((get_channel target >>= λ e. get_peer e.peer_handle >>= λ _.
                lock_peer eng e.peer_handle >>= λ _. await eng (call e) answer >>= k)
              >>= g)
            s).1
          ≡ record s { trace = call entry ∷ lock_operations entry.peer_handle ∷ s.trace }
    unfolding lock_peer
    locked_send target h entry peer call answer k g same p q still_k still_g =
        let found : Map.get target s.channels ≡ some entry = ground (arith, p) in
        ends_in _ (k (answer (call entry ∷ lock_operations entry.peer_handle ∷ s.trace))) g s _
          (get_channel_bind s target entry _ clear found
            ∙ get_peer_bind s entry.peer_handle peer _ clear q
            ∙ await_bind eng alone (lock_operations entry.peer_handle) _ _ s
            ∙ await_bind eng alone (call entry) answer k
                (record s { trace = lock_operations entry.peer_handle ∷ s.trace }))
          (still_k _) still_g
