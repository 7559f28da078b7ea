-- ===== src/Runtime/Control/Account.antt =====
-- The control loop of native/src/runtime.rs accounts for every command that it accepts.
use kestara_webrtc.Base.{
  ℕ, ◌+◌, ◌≡◌, refl, sym, ap, ◌∙◌, false, Option, none, some, List, [], ◌∷◌, ◌++◌, Text, ◌==◌,
  if◌then◌else◌, Bool-cases, inl, inr, arith,
}
use kestara_webrtc.Errors.{Error, shutdown_timed_out, given}
use kestara_webrtc.Events.{
  NativeEvent, operation_event, Result, err, OperationValue, completions, completions-append,
}
use kestara_webrtc.Events.Kind
use kestara_webrtc.Runtime.Command.{Command, operation_handle, is_shutdown}
use kestara_webrtc.Runtime.Completion.{requests, completions_event}
use kestara_webrtc.Runtime.Control.{
  Phase, serving, draining, leaving, ended, Control, submit, receive, finish, leave, settled,
  drained, taken_down, Internal, receives, finishes, drains, expires, hangs_up, goes_down, submits,
  releases, notifies, abandons, discards, complete_error, completes_error, Reachable, opens, inside,
  outside,
}

-- 1 if the shutdown that goes on is one of the operation `o`.
abbrev pub in_shutdown : ℕ → Phase → ℕ
in_shutdown o serving = 0
in_shutdown o (draining p) = if p == o then 1 else 0
in_shutdown o (leaving none) = 0
in_shutdown o (leaving (some p)) = if p == o then 1 else 0
in_shutdown o ended = 0

-- How often an operation was completed with an error without a command.
abbrev pub refusals : ℕ → List ℕ → ℕ
refusals o [] = 0
refusals o (p ∷ rest) = (if p == o then 1 else 0) + refusals o rest

refusals-append : (o : ℕ) (xs ys : List ℕ) → refusals o (xs ++ ys) ≡ refusals o xs + refusals o ys
refusals-append o [] ys = omega arith
refusals-append o (x ∷ xs) ys = omega (arith, refusals-append o xs ys)

abbrev pub Accounted : ℕ → Control → Type 0
Accounted o l =
    requests o l.sent + refusals o l.refused
    ≡ completions o l.events
      + (in_shutdown o l.phase + (requests o l.running + requests o l.queue))
      + requests o l.lost

requests-append :
    (o : ℕ) (xs ys : List Command) → requests o (xs ++ ys) ≡ requests o xs + requests o ys
unfolding requests
requests-append o [] ys = omega arith
requests-append o (x ∷ xs) ys = omega (arith, requests-append o xs ys)

one : ℕ → Command → ℕ
one o command = if operation_handle command == o then 1 else 0

requests-split :
    (o : ℕ) (before after : List Command) (command : Command)
    → requests o (before ++ (command ∷ after)) ≡ one o command + requests o (before ++ after)
unfolding requests one
requests-split o [] after command = refl
requests-split o (x ∷ before) after command = omega (arith, requests-split o before after command)

module _ (o : ℕ) (l : Control) (known : Accounted o l) where
  receives-Accounted :
      (command : Command) (rest : List Command)
      → l.phase ≡ serving
      → l.queue ≡ command ∷ rest
      → Accounted o (receive command rest l)
  unfolding receive requests
  receives-Accounted command rest p q =
      let phase : in_shutdown o l.phase ≡ 0 = ap (in_shutdown o) p in
      let queue : requests o l.queue
          ≡ (if operation_handle command == o then 1 else 0) + requests o rest =
        ap (requests o) q in
      elim (Bool-cases (is_shutdown command)) [
        | inl e ↦ rw e (omega (arith, known, phase, queue))
        | inr e ↦ rw e (omega (arith, known, queue, requests-append o l.running (command ∷ [])))
      ]

  finishes-Accounted :
      (command : Command) (before after : List Command) (result : Result OperationValue)
      → l.running ≡ before ++ (command ∷ after)
      → Accounted o (finish command (before ++ after) result l)
  unfolding finish one
  finishes-Accounted command before after result r =
      let running : requests o l.running ≡ requests o (before ++ (command ∷ after)) =
        ap (requests o) r in
      omega (
        arith,
        known,
        running,
        requests-split o before after command,
        completions-append o l.events (operation_event (operation_handle command) result ∷ []),
        completions_event o (operation_handle command) result,
      )

  leave-Accounted :
      (events : List NativeEvent)
      → completions o events ≡ in_shutdown o l.phase
      → Accounted o (leave events l)
  unfolding leave
  leave-Accounted events e = omega (arith, known, e, completions-append o l.events events)

  abandons-Accounted :
      (command : Command) (before after : List Command)
      → l.running ≡ before ++ (command ∷ after)
      → Accounted o (record l { running = before ++ after; lost = l.lost ++ (command ∷ []) })
  unfolding requests one
  abandons-Accounted command before after r =
      let running : requests o l.running ≡ requests o (before ++ (command ∷ after)) =
        ap (requests o) r in
      omega (
        arith,
        known,
        running,
        requests-split o before after command,
        requests-append o l.lost (command ∷ []),
      )

  discards-Accounted :
      (command : Command) (rest : List Command)
      → l.queue ≡ command ∷ rest
      → Accounted o (record l { queue = rest; lost = l.lost ++ (command ∷ []) })
  unfolding requests
  discards-Accounted command rest q =
      let queue : requests o l.queue
          ≡ (if operation_handle command == o then 1 else 0) + requests o rest =
        ap (requests o) q in
      omega (arith, known, queue, requests-append o l.lost (command ∷ []))

  complete_error-Accounted : (p : ℕ) (text : Text) → Accounted o (complete_error p text l)
  unfolding complete_error
  complete_error-Accounted p text = omega (
    arith,
    known,
    completions-append o l.events (operation_event p (err (given text)) ∷ []),
    completions_event o p (err (given text)),
    refusals-append o l.refused (p ∷ []),
  )

  drained-Accounted :
      (p : ℕ) (result : Option Error) → l.phase ≡ draining p → Accounted o (drained p result l)
  unfolding drained
  drained-Accounted p result e =
      leave-Accounted _ (completions_event o p (settled result) ∙ sym (ap (in_shutdown o) e))

  taken_down-Accounted : (p : Option ℕ) → l.phase ≡ leaving p → Accounted o (taken_down p l)
  unfolding taken_down completions
  taken_down-Accounted none e = leave-Accounted [] (sym (ap (in_shutdown o) e))
  taken_down-Accounted (some p) e =
      leave-Accounted _
        (completions_event o p (err shutdown_timed_out) ∙ sym (ap (in_shutdown o) e))

  submits-Accounted : (command : Command) → Accounted o (submit command l)
  unfolding submit
  submits-Accounted command = omega (
    arith,
    known,
    requests-append o l.sent (command ∷ []),
    requests-append o l.queue (command ∷ []),
  )

  phase-Accounted :
      (phase : Phase)
      → in_shutdown o phase ≡ in_shutdown o l.phase
      → Accounted o (record l { phase = phase })
  phase-Accounted phase e = omega (arith, known, e)

  notifies-Accounted :
      (event : NativeEvent)
      → (event.kind == Kind.operation_complete) ≡ false
      → Accounted o (record l { events = l.events ++ (event ∷ []) })
  unfolding completions
  notifies-Accounted event e =
      let silent : completions o (event ∷ []) ≡ 0 = rw e refl in
      omega (arith, known, silent, completions-append o l.events (event ∷ []))

Internal-Accounted : (o : ℕ) {l m : Control} → Accounted o l → Internal l m → Accounted o m
Internal-Accounted o {l} known (receives command rest p q) =
    receives-Accounted o l known command rest p q
Internal-Accounted o {l} known (finishes command before after result r) =
    finishes-Accounted o l known command before after result r
Internal-Accounted o {l} known (drains p result e r) = drained-Accounted o l known p result e
Internal-Accounted o {l} known (expires p e) =
    phase-Accounted o l known (leaving (some p)) (sym (ap (in_shutdown o) e))
Internal-Accounted o {l} known (hangs_up e q s) =
    phase-Accounted o l known (leaving none) (sym (ap (in_shutdown o) e))
Internal-Accounted o {l} known (goes_down p e) = taken_down-Accounted o l known p e
Internal-Accounted o {l} known (abandons command before after e r) =
    abandons-Accounted o l known command before after r
Internal-Accounted o {l} known (discards command rest e q) =
    discards-Accounted o l known command rest q

-- In every interleaving of the control loop with its tasks, the client and other tasks, each command that
-- was accepted is in exactly one place: its completion was sent, its shutdown goes on, its task runs, it
-- waits to be received, or it was dropped after the loop had ended. The other completions are those that
-- the client asked for with `complete_error`. So no operation is completed more often than it was asked
-- for.
pub every_command-Accounted : (o : ℕ) (l : Control) → Reachable l → Accounted o l
unfolding requests completions
every_command-Accounted o l opens = refl
every_command-Accounted o l (inside {l = k} reach step) =
    Internal-Accounted o (every_command-Accounted o k reach) step
every_command-Accounted o l (outside {l = k} reach (submits command p s)) =
    submits-Accounted o k (every_command-Accounted o k reach) command
every_command-Accounted o l (outside {l = k} reach releases) = every_command-Accounted o k reach
every_command-Accounted o l (outside {l = k} reach (notifies event e)) =
    notifies-Accounted o k (every_command-Accounted o k reach) event e
every_command-Accounted o l (outside {l = k} reach (completes_error p text)) =
    complete_error-Accounted o k (every_command-Accounted o k reach) p text
