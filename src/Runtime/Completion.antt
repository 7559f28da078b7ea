-- ===== src/Runtime/Completion.antt =====
-- A dispatched task of native/src/runtime.rs completes its own operation, once.
use kestara_webrtc.Base.{ℕ, ◌+◌, ◌≡◌, List, [], ◌∷◌, arith, ◌==◌, if◌then◌else◌}
use kestara_webrtc.Events.{
  operation_event, Result, ok, err, OperationValue, completions, completions-append,
}
use kestara_webrtc.Registry.State.{RuntimeState, Engine}
use kestara_webrtc.Registry.Access.{push_event}
use kestara_webrtc.Registry.Invariant.Defs.{Rely}
use kestara_webrtc.Runtime.Command.{Command, operation_handle}
use kestara_webrtc.Runtime.Execute.{execute, dispatch, settle}
use kestara_webrtc.Runtime.Forward.{execute-Ensures}

-- How many commands carry the operation `o`.
unfoldable pub requests : ℕ → List Command → ℕ
requests o [] = 0
requests o (command ∷ rest) = (if operation_handle command == o then 1 else 0) + requests o rest

pub completions_event :
    (o p : ℕ) (r : Result OperationValue)
    → completions o (operation_event p r ∷ []) ≡ (if p == o then 1 else 0)
unfolding completions operation_event
completions_event o p (ok value) = ground arith
completions_event o p (err e) = ground arith

-- Let the other tasks take no handle back while a command's task waits, keep a well-formed registry well
-- formed, and not complete the operation `o`. A task that is not aborted sends one completion, of its
-- command's operation, whether the command succeeds, fails or misses its deadline; for any other `o` it
-- sends none.
pub dispatch_completes :
    (eng : Engine) (o : ℕ) (command : Command) (s : RuntimeState)
    → Rely o eng
    → completions o (dispatch eng command s).events
      ≡ completions o s.events + (if operation_handle command == o then 1 else 0)
unfolding dispatch push_event
dispatch_completes eng o command s rely =
    let p : ℕ = operation_handle command in
    let (r, t) = execute eng command s in
    omega (
      arith,
      completions-append o t.events (operation_event p (settle r) ∷ []),
      completions_event o p (settle r),
      ((execute-Ensures eng rely command).at s).quiet,
    )
