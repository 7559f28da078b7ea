-- ===== src/Registry/Invariant/Fresh.antt =====
-- Tasks of native/src/registry.rs that take a fresh handle at their start and register under it later.
use kestara_webrtc.Base.{ℕ, arith}
use kestara_webrtc.Registry.State.{RuntimeState, PeerEntry, ChannelEntry}
use kestara_webrtc.Registry.Task.{
  Task, Outcome, done, fails, dropped, pure, gets, modify, continue, ◌>>=◌,
}
use kestara_webrtc.Registry.Access.{issue, next_handle}
use kestara_webrtc.Registry.Builder.{add_peer}
use kestara_webrtc.Registry.Channels.{add_channel}
use kestara_webrtc.Registry.Invariant.Defs.{WellFormed, HasRoom, Later, Later-trans}
use kestara_webrtc.Registry.Invariant.Rules.{Ensures}
use kestara_webrtc.Registry.Invariant.Steps.{
  IsFresh, issue-Later, add_peer-Later, add_channel-Later,
}

-- `t` comes after `s`, and `h` was given out in between.
pub record Since (o : ℕ) (s : RuntimeState) (h : ℕ) (t : RuntimeState) : Type 0 where
  pub later : Later o s t
  pub fresh : WellFormed s → HasRoom t → IsFresh h s t

pub Since-Later :
    {o : ℕ} → {s t u : RuntimeState} {h : ℕ} → Since o s h t → Later o t u → Since o s h u
Since-Later {s} {t} {u} {h} a b = record { later = Later-trans a.later b; fresh = go }
  where
    go : WellFormed s → HasRoom u → IsFresh h s u
    go w r = omega (arith, b.issued_le, a.fresh w (omega (arith, b.issued_le)))

pub issue-Since : {o : ℕ} (s : RuntimeState) → Since o s s.next_handle (issue s)
issue-Since s = record {
  later = issue-Later s;
  fresh = λ w r. unfold issue in omega (arith, w.counter);
}

-- The task goes on from a state since `s` to another.
pub record Goes (o : ℕ) {A : Type 0} (s : RuntimeState) (h : ℕ) (m : Task A) : Type 0 where
  pub at : (t : RuntimeState) → Since o s h t → Since o s h (m t).1

module _ {o : ℕ} {s : RuntimeState} {h : ℕ} where
  pub Goes-Ensures : {A : Type 0} {m : Task A} → Ensures o m → Goes o s h m
  Goes-Ensures e = record { at = λ t a. Since-Later a (e.at t) }

  pub Goes-add_peer : (e : PeerEntry) → Goes o s h (modify (add_peer h e))
  unfolding modify add_peer
  Goes-add_peer e = record {
    at = λ t a. record { later = add_peer-Later h e s t a.fresh a.later; fresh = a.fresh };
  }

  pub Goes-add_channel : (e : ChannelEntry) → Goes o s h (modify (add_channel h e))
  unfolding modify add_channel
  Goes-add_channel e = record {
    at = λ t a. record { later = add_channel-Later h e s t a.fresh a.later; fresh = a.fresh };
  }

module _ {o : ℕ} {A B : Type 0} {s : RuntimeState} {h : ℕ} where
  continue-Since :
      (r : Outcome A) (f : A → Task B) (t : RuntimeState)
      → Since o s h t
      → ((a : A) → Goes o s h (f a))
      → Since o s h (continue r f t).1
  continue-Since (done a) f t c kf = (kf a).at t c
  continue-Since (fails e) f t c kf = c
  continue-Since dropped f t c kf = c

  pub Goes-bind :
      (m : Task A) (f : A → Task B)
      → Goes o s h m
      → ((a : A) → Goes o s h (f a))
      → Goes o s h (m >>= f)
  unfolding ◌>>=◌
  Goes-bind m f km kf = record { at = λ t c. continue-Since (m t).0 f (m t).1 (km.at t c) kf }

-- Such a task, started with a handle of its own.
pub Ensures-next_handle :
    {o : ℕ}
    → {A : Type 0} (f : ℕ → Task A) → ((s : RuntimeState) (h : ℕ) → Goes o s h (f h))
    → Ensures o (next_handle >>= f)
unfolding next_handle ◌>>=◌ modify pure gets
Ensures-next_handle f go = record {
  at = λ s. ((go s s.next_handle).at (issue s) (issue-Since s)).later;
}
