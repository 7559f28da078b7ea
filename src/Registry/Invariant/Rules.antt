-- ===== src/Registry/Invariant/Rules.antt =====
-- A rule for each way in which a task of native/src/registry.rs is built.
use kestara_webrtc.Base.{
  ℕ, ◌≡◌, refl, Bool, true, false, Option, none, some, List, [], ◌∷◌, arith, if◌then◌else◌,
  Bool-cases, inl, inr,
}
use kestara_webrtc.Errors.{Error, Attempt}
use kestara_webrtc.Events.{
  NativeEvent, Result, ok, err, is_completion, completions, completions-append,
}
use kestara_webrtc.Registry.State.{RuntimeState, Engine, Call, Reply, good, bad, Spawned}
use kestara_webrtc.Registry.Task.{
  Task, Outcome, done, fails, dropped, pure, fail, gets, modify, continue, await, or_failed, ok_or,
  of_result, ask, check_lock, waited, ◌>>=◌,
}
use kestara_webrtc.Registry.Access.{push_event, send_event, spawn}
use kestara_webrtc.Registry.Invariant.Defs.{Later, Rely, Later-refl, Later-trans, frame_Later}

-- However the task ends, the state that it leaves is later than the one it found.
pub record Ensures (o : ℕ) {A : Type 0} (m : Task A) : Type 0 where
  pub at : (s : RuntimeState) → Later o s (m s).1

pub trace_Later :
    {o : ℕ} (s : RuntimeState) (calls : List Call) → Later o s (record s { trace = calls })
trace_Later s calls = frame_Later s _ refl refl refl refl refl

module _ {o : ℕ} {A : Type 0} where
  pub Ensures-pure : (a : A) → Ensures o (pure a)
  unfolding pure
  Ensures-pure a = record { at = λ s. Later-refl s }

  pub Ensures-fail : (e : Error) → Ensures o (fail {A = A} e)
  unfolding fail
  Ensures-fail e = record { at = λ s. Later-refl s }

  pub Ensures-gets : (f : RuntimeState → A) → Ensures o (gets f)
  unfolding gets
  Ensures-gets f = record { at = λ s. Later-refl s }

  pub Ensures-if :
      (b : Bool) (m n : Task A) → Ensures o m → Ensures o n → Ensures o (if b then m else n)
  Ensures-if true m n km kn = km
  Ensures-if false m n km kn = kn

  pub Ensures-of_result : (r : Result A) → Ensures o (of_result r)
  unfolding of_result
  Ensures-of_result (ok a) = Ensures-pure a
  Ensures-of_result (err e) = Ensures-fail e

  pub Ensures-or_failed : (attempt : Attempt) (r : Reply A) → Ensures o (or_failed attempt r)
  unfolding or_failed
  Ensures-or_failed attempt (good a) = Ensures-pure a
  Ensures-or_failed attempt (bad text) = Ensures-fail _

  pub Ensures-ok_or : (e : Error) (found : Option A) → Ensures o (ok_or e found)
  unfolding ok_or
  Ensures-ok_or e (some a) = Ensures-pure a
  Ensures-ok_or e none = Ensures-fail e

  pub Ensures-ask : (call : Call) (answer : List Call → A) → Ensures o (ask call answer)
  unfolding ask
  Ensures-ask call answer = record { at = λ s. trace_Later s (call ∷ s.trace) }

  -- The wait itself is where the others run.
  pub Ensures-await :
      (eng : Engine) (call : Call) (answer : List Call → A)
      → Rely o eng
      → Ensures o (await eng call answer)
  unfolding await waited
  Ensures-await eng call answer rely = record { at = go }
    where
      go : (s : RuntimeState) → Later o s (await eng call answer s).1
      go s = elim (Bool-cases (eng.expired (call ∷ s.trace))) [
        | inl e ↦ rw (e, await) (Later-trans (trace_Later s (call ∷ s.trace)) (rely.later _))
        | inr e ↦ rw (e, await) (Later-trans (trace_Later s (call ∷ s.trace)) (rely.later _))
      ]

pub Ensures-modify :
    {o : ℕ} (f : RuntimeState → RuntimeState)
    → ((s : RuntimeState) → Later o s (f s))
    → Ensures o (modify f)
unfolding modify
Ensures-modify f later = record { at = later }

pub Ensures-check_lock : {o : ℕ} (b : Bool) (e : Error) → Ensures o (check_lock b e)
unfolding check_lock
Ensures-check_lock true e = Ensures-fail e
Ensures-check_lock false e = Ensures-pure tt

module _ {o : ℕ} {A B : Type 0} where
  continue-Later :
      (r : Outcome A) (f : A → Task B) (s : RuntimeState)
      → ((a : A) → Ensures o (f a))
      → Later o s (continue r f s).1
  continue-Later (done a) f s kf = (kf a).at s
  continue-Later (fails e) f s kf = Later-refl s
  continue-Later dropped f s kf = Later-refl s

  pub Ensures-bind :
      (m : Task A) (f : A → Task B)
      → Ensures o m
      → ((a : A) → Ensures o (f a))
      → Ensures o (m >>= f)
  unfolding ◌>>=◌
  Ensures-bind m f km kf = record {
    at = λ s. Later-trans (km.at s) (continue-Later (m s).0 f (m s).1 kf);
  }

-- An event that completes nothing, or a spawned task, does not touch the registry.
pub push_event-Later :
    {o : ℕ} (event : NativeEvent) (s : RuntimeState)
    → is_completion o event ≡ false
    → Later o s (push_event event s)
unfolding push_event completions
push_event-Later {o} event s e =
    frame_Later s _ refl refl refl refl (ground (arith, completions-append o s.events (event ∷ [])))

pub Ensures-send_event :
    {o : ℕ} (event : NativeEvent) → is_completion o event ≡ false → Ensures o (send_event event)
unfolding send_event
Ensures-send_event event e = Ensures-modify _ λ s. push_event-Later event s e

pub Ensures-spawn : {o : ℕ} (task : Spawned) → Ensures o (spawn task)
unfolding spawn
Ensures-spawn task = Ensures-modify _ λ s. frame_Later s _ refl refl refl refl refl

pub ruleset ensures_rules = (
  Ensures-pure, Ensures-fail, Ensures-gets, Ensures-if, Ensures-of_result, Ensures-or_failed,
  Ensures-ok_or, Ensures-ask, Ensures-await, Ensures-check_lock, Ensures-bind, Ensures-send_event,
  Ensures-spawn,
)
