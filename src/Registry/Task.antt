-- ===== src/Registry/Task.antt =====
-- The bodies of the asynchronous functions. A task changes the state even when it fails, and at each
-- `await` it may be dropped, when `tokio::time::timeout` gives up on it.
use kestara_webrtc.Base.{Bool, true, false, Option, none, some, List, ◌∷◌, if◌then◌else◌}
use kestara_webrtc.Errors.{Error, Attempt, failed}
use kestara_webrtc.Events.{Result, ok, err}
use kestara_webrtc.Registry.State.{RuntimeState, Engine, Call, Reply, good, bad}

pub data Outcome {ℓ} (A : Type ℓ) : Type ℓ where
  done : A → Outcome A
  fails : Error → Outcome A
  dropped : Outcome A

abbrev pub Task : Type 0 → Type 0
Task A = RuntimeState → Outcome A × RuntimeState

module _ {A : Type 0} where
  unfoldable pub pure : A → Task A
  pure a s = (done a, s)

  unfoldable pub fail : Error → Task A
  fail e s = (fails e, s)

  unfoldable pub gets : (RuntimeState → A) → Task A
  gets f s = (done (f s), s)

unfoldable pub modify : (RuntimeState → RuntimeState) → Task (Unit {0})
modify f s = (done tt, f s)

module _ {A B : Type 0} where
  abbrev pub continue : Outcome A → (A → Task B) → Task B
  continue (done a) f s = f a s
  continue (fails e) f s = (fails e, s)
  continue dropped f s = (dropped, s)

  infixl 10 ◌>>=◌ ◌>>◌
  unfoldable pub ◌>>=◌ : Task A → (A → Task B) → Task B
  unfolding pure fail gets modify
  ◌>>=◌ m f s = let (r, s') = m s in continue r f s'

  abbrev pub ◌>>◌ : Task A → Task B → Task B
  m >> n = m >>= λ _. n

-- The state when the wait for `call` is over.
unfoldable pub waited : Engine → Call → RuntimeState → RuntimeState
waited eng call s = eng.interfere (record s { trace = call ∷ s.trace })

module _ {A : Type 0} where
  unfoldable pub await : Engine → Call → (List Call → A) → Task A
  unfolding waited
  await eng call answer s =
      if eng.expired (call ∷ s.trace)
      then (dropped, waited eng call s)
      else (done (answer (call ∷ s.trace)), waited eng call s)

  -- `.map_err(|error| format!("…: {error}"))?`
  unfoldable pub or_failed : Attempt → Reply A → Task A
  or_failed attempt (good a) = pure a
  or_failed attempt (bad text) = fail (failed attempt text)

  -- `result?`
  unfoldable pub of_result : Result A → Task A
  of_result (ok a) = pure a
  of_result (err e) = fail e

  -- A call that is not waited for.
  unfoldable pub ask : Call → (List Call → A) → Task A
  ask call answer s = (done (answer (call ∷ s.trace)), record s { trace = call ∷ s.trace })

  -- `.ok_or_else(…)?`
  unfoldable pub ok_or : Error → Option A → Task A
  ok_or e (some a) = pure a
  ok_or e none = fail e

  -- `.unwrap_or(…)`
  unfoldable pub reply_or : A → Reply A → A
  reply_or d (good a) = a
  reply_or d (bad text) = d

-- `mutex.lock().map_err(…)?`
unfoldable pub check_lock : Bool → Error → Task (Unit {0})
check_lock true e = fail e
check_lock false e = pure tt
