-- ===== src/Registry/Closing.antt =====
-- `close_peer` of native/src/registry.rs: what is gone afterwards, and what is called.
use kestara_webrtc.Base.{
  ℕ, ◌≡◌, ◌≢◌, refl, ◌∙◌, Bool-cases, false, Option, none, some, List, ◌∷◌, arith, ==_self, ==_iff,
  inl, inr,
}
use kestara_webrtc.Errors.{closing_peer}
use kestara_webrtc.Map
use kestara_webrtc.Map.{get-remove, retain_test}
use kestara_webrtc.Registry.State.{
  RuntimeState, Engine, PeerEntry, ChannelEntry, Call, lock_operations, Reply, good, bad,
}
use kestara_webrtc.Registry.Task.{
  Task, Outcome, done, fails, dropped, continue, pure, fail, or_failed, gets, modify, await, waited,
  ◌>>=◌,
}
use kestara_webrtc.Registry.Runs.{Alone, lock_bind, await_bind}
use kestara_webrtc.Registry.Access.{lock_peer}
use kestara_webrtc.Registry.Peers.{forget_peer, close_entry, close_peer}

close_peer_runs :
    (eng : Engine) (h : ℕ) (s : RuntimeState)
    → s.poisoned ≡ false
    → close_peer eng h s ≡ close_entry eng h (Map.get h s.peers) (forget_peer h s)
unfolding close_peer gets modify ◌>>=◌
close_peer_runs eng h s e = lock_bind s _ e

close_entry-Alone :
    (eng : Engine) (h : ℕ) (entry : PeerEntry) (s : RuntimeState)
    → Alone eng
    → let calls = Call.close_peer entry.peer ∷ lock_operations h ∷ s.trace in
      close_entry eng h (some entry) s
      ≡ or_failed closing_peer (eng.finished calls) (record s { trace = calls })
unfolding close_entry lock_peer
close_entry-Alone eng h entry s alone =
    await_bind eng alone (lock_operations h) _ _ s
    ∙ await_bind eng alone (Call.close_peer entry.peer) eng.finished _
        (record s { trace = lock_operations h ∷ s.trace })

forgotten : (eng : Engine) (h : ℕ) (s : RuntimeState) → Map.get h (forget_peer h s).peers ≡ none
unfolding forget_peer
forgotten eng h s = ground (arith, get-remove h h s.peers, ==_self h)

-- No handle leads to the peer `h`, and none to a channel of it.
abbrev pub Gone : ℕ → RuntimeState → Type 0
Gone h s =
    (Map.get h s.peers ≡ none)
    × ((c : ℕ) (entry : ChannelEntry) → Map.get c s.channels ≡ some entry → entry.peer_handle ≢ h)

forget_peer-Gone : (h : ℕ) (s : RuntimeState) → Gone h (forget_peer h s)
unfolding forget_peer
forget_peer-Gone h s = (
  ground (arith, get-remove h h s.peers, ==_self h),
  λ c entry e. ground (arith, retain_test _ c entry s.channels e, ==_iff entry.peer_handle h),
)

-- What is asked of the other tasks: none registers a peer under `h` or a channel of it.
pub record Spares (h : ℕ) (eng : Engine) : Type 0 where
  pub spares : (s : RuntimeState) → Gone h s → Gone h (eng.interfere s)

module _ (h : ℕ) (eng : Engine) (others : Spares h eng) where
  await-Gone :
      {A : Type 0} (call : Call) (answer : List Call → A) (s : RuntimeState)
      → Gone h s
      → Gone h (await eng call answer s).1
  unfolding await waited
  await-Gone call answer s g = elim (Bool-cases (eng.expired (call ∷ s.trace))) [
    | inl e ↦ rw (e, await) (others.spares (record s { trace = call ∷ s.trace }) g)
    | inr e ↦ rw (e, await) (others.spares (record s { trace = call ∷ s.trace }) g)
  ]

  bind-Gone :
      {A B : Type 0} (m : Task A) (f : A → Task B) (s : RuntimeState)
      → Gone h (m s).1
      → ((a : A) (t : RuntimeState) → Gone h t → Gone h (f a t).1)
      → Gone h ((m >>= f) s).1
  unfolding ◌>>=◌
  bind-Gone m f s g k = go (m s).0 g
    where
      go : (r : Outcome _) → Gone h (m s).1 → Gone h (continue r f (m s).1).1
      go (done a) g' = k a (m s).1 g'
      go (fails e) g' = g'
      go dropped g' = g'

  or_failed-Gone :
      (r : Reply (Unit {0})) (s : RuntimeState) → Gone h s → Gone h (or_failed closing_peer r s).1
  unfolding or_failed pure fail
  or_failed-Gone (good u) s g = g
  or_failed-Gone (bad text) s g = g

  close_entry-Gone :
      (entry : Option PeerEntry) (s : RuntimeState)
      → Gone h s
      → Gone h (close_entry eng h entry s).1
  unfolding close_entry lock_peer pure
  close_entry-Gone none s g = g
  close_entry-Gone (some entry) s g =
      bind-Gone _ _ s (await-Gone (lock_operations h) _ s g)
        λ u t g'. bind-Gone _ _ t (await-Gone (Call.close_peer entry.peer) _ t g') or_failed-Gone

-- Let no other task register a peer under the handle, or a channel of that peer, while `close_peer` waits;
-- the registration of a channel that is under way may do so, as `orphaned_channel` shows. After
-- `close_peer`, no handle leads to the peer, and none to one of its channels, whether it returned, failed or
-- was dropped while it waited. The lock of the registry is not poisoned.
pub close_peer_forgets :
    (eng : Engine) (h : ℕ) (s : RuntimeState)
    → Spares h eng
    → s.poisoned ≡ false
    → (Map.get h (close_peer eng h s).1.peers ≡ none)
      × ((c : ℕ) (entry : ChannelEntry)
          → Map.get c (close_peer eng h s).1.channels ≡ some entry
          → entry.peer_handle ≢ h)
close_peer_forgets eng h s others e =
    rw (close_peer_runs eng h s e)
      (close_entry-Gone h eng others (Map.get h s.peers) (forget_peer h s) (forget_peer-Gone h s))

-- Left alone, `close_peer` of a registered peer takes the peer's lock and then calls the library's
-- `close` once, whose answer it returns; a second `close_peer` succeeds and calls nothing.
pub close_peer_once :
    (eng : Engine) (h : ℕ) (entry : PeerEntry) (s : RuntimeState)
    → Alone eng
    → s.poisoned ≡ false
    → Map.get h s.peers ≡ some entry
    → let calls = Call.close_peer entry.peer ∷ lock_operations h ∷ s.trace in
      (close_peer eng h s
        ≡ or_failed closing_peer (eng.finished calls) (record (forget_peer h s) { trace = calls }))
      × (close_peer eng h (record (forget_peer h s) { trace = calls })
          ≡ (done tt, record (forget_peer h (forget_peer h s)) { trace = calls }))
unfolding forget_peer
close_peer_once eng h entry s alone e p = (
  close_peer_runs eng h s e ∙ rw p (close_entry-Alone eng h entry (forget_peer h s) alone),
  close_peer_runs eng h _ e ∙ rw (forgotten eng h s) (unfold close_entry pure in refl),
)
