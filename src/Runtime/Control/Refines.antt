-- ===== src/Runtime/Control/Refines.antt =====
-- What a runtime promises of its operations, and that the control loop of native/src/runtime.rs keeps it.
use kestara_webrtc.Base.{
  ℕ, ◌≡◌, ◌≢◌, refl, sym, ap, ◌∙◌, Bool, true, false, Option, none, some, List, [], ◌∷◌, ◌++◌, map,
  ◌==◌, if◌then◌else◌, Bool-cases, inl, inr,
}
use mathlib.Core.Path.{transport}
use mathlib.Core.List.{append-nil, append_assoc, map-append}
use kestara_webrtc.Errors.{Error, shutdown_timed_out, given}
use kestara_webrtc.Events.{NativeEvent, operation_event, Result, ok, err, OperationValue}
use kestara_webrtc.Events.Kind
use kestara_webrtc.Runtime.Command.{Command, operation_handle, is_shutdown}
use kestara_webrtc.Runtime.Control.{
  Phase, serving, draining, leaving, ended, Control, submit, receive, finish, leave, settled,
  drained, taken_down, Internal, receives, finishes, drains, expires, hangs_up, goes_down, External,
  submits, releases, notifies, opened, abandons, discards, complete_error, completes_error,
  Reachable, opens, inside, outside,
}

-- The promise: operations that were asked for and not answered, those that were answered, in order, those
-- of them that were refused at once, and whether more can be asked for.
pub record Service : Type 0 where
  pub pending : List ℕ
  pub answered : List ℕ
  pub refused : List ℕ
  pub open_now : Bool

-- An operation is asked for, while the service is open; one that is pending is answered; one that is not
-- asked of the service is refused; the service closes; and once it has closed, one that is pending is
-- dropped.
pub data Serves (s t : Service) : Type 0 where
  asks :
      (o : ℕ)
      → s.open_now ≡ true
      → t.pending ≡ s.pending ++ (o ∷ [])
      → t.answered ≡ s.answered
      → t.refused ≡ s.refused
      → t.open_now ≡ true
      → Serves s t
  answers :
      (o : ℕ) (before after : List ℕ)
      → s.pending ≡ before ++ (o ∷ after)
      → t.pending ≡ before ++ after
      → t.answered ≡ s.answered ++ (o ∷ [])
      → t.refused ≡ s.refused
      → t.open_now ≡ s.open_now
      → Serves s t
  refuses :
      (o : ℕ)
      → t.pending ≡ s.pending
      → t.answered ≡ s.answered ++ (o ∷ [])
      → t.refused ≡ s.refused ++ (o ∷ [])
      → t.open_now ≡ s.open_now
      → Serves s t
  closes :
      t.pending ≡ s.pending
      → t.answered ≡ s.answered
      → t.refused ≡ s.refused
      → t.open_now ≡ false
      → Serves s t
  drops :
      (o : ℕ) (before after : List ℕ)
      → s.open_now ≡ false
      → s.pending ≡ before ++ (o ∷ after)
      → t.pending ≡ before ++ after
      → t.answered ≡ s.answered
      → t.refused ≡ s.refused
      → t.open_now ≡ false
      → Serves s t

pub data Follows (s : Service) : Service → Type 0 where
  here : {t : Service} → s ≡ t → Follows s t
  next : {t u : Service} → Follows s t → Serves t u → Follows s u

-- The operations whose completions are among the events.
abbrev pub completed : List NativeEvent → List ℕ
completed [] = []
completed (event ∷ rest) =
    if event.kind == Kind.operation_complete
    then event.operation_handle ∷ completed rest
    else completed rest

abbrev pub operations : List Command → List ℕ
operations commands = map operation_handle commands

abbrev shutdown_of : Phase → List ℕ
shutdown_of serving = []
shutdown_of (draining o) = o ∷ []
shutdown_of (leaving none) = []
shutdown_of (leaving (some o)) = o ∷ []
shutdown_of ended = []

abbrev is_open : Phase → Bool
is_open ended = false
is_open _ = true

-- The control loop as a service.
abbrev pub service : Control → Service
service l = record {
  pending = operations l.running ++ (shutdown_of l.phase ++ operations l.queue);
  answered = completed l.events;
  refused = l.refused;
  open_now = is_open l.phase;
}

completed-append : (xs ys : List NativeEvent) → completed (xs ++ ys) ≡ completed xs ++ completed ys
completed-append [] ys = refl
completed-append (x ∷ xs) ys = elim (Bool-cases (x.kind == Kind.operation_complete)) [
  | inl e ↦ rw e (ap (λ more. x.operation_handle ∷ more) (completed-append xs ys))
  | inr e ↦ rw e (completed-append xs ys)
]

completed-event :
    (events : List NativeEvent) (o : ℕ) (result : Result OperationValue)
    → completed (events ++ (operation_event o result ∷ [])) ≡ completed events ++ (o ∷ [])
unfolding operation_event
completed-event events o (ok value) = completed-append events _
completed-event events o (err e) = completed-append events _

module _ (l : Control) where
  receives-Follows :
      (command : Command) (rest : List Command)
      → l.phase ≡ serving
      → l.queue ≡ command ∷ rest
      → Follows (service l) (service (receive command rest l))
  unfolding receive
  receives-Follows command rest p q = elim (Bool-cases (is_shutdown command)) [
    | inl e ↦ rw e (here (rw (p, q) refl))
    | inr e ↦ rw e (here (rw (p, q, map-append, append_assoc) refl))
  ]

  finishes-Follows :
      (command : Command) (before after : List Command) (result : Result OperationValue)
      → l.running ≡ before ++ (command ∷ after)
      → Follows (service l) (service (finish command (before ++ after) result l))
  unfolding finish
  finishes-Follows command before after result r = next (here refl) (
      answers (operation_handle command) (operations before)
        (operations after ++ (shutdown_of l.phase ++ operations l.queue))
        (rw (r, map-append, append_assoc) refl) (rw (map-append, append_assoc) refl)
        (completed-event l.events (operation_handle command) result) refl refl)

  -- The service when its shutdown is answered and it has not closed.
  abbrev left : List ℕ → ℕ → Service
  left pending o = record {
    pending = pending;
    answered = completed l.events ++ (o ∷ []);
    refused = l.refused;
    open_now = is_open l.phase;
  }

  drained-Follows :
      (o : ℕ) (result : Option Error)
      → l.phase ≡ draining o
      → l.running ≡ []
      → Follows (service l) (service (drained o result l))
  unfolding drained leave
  drained-Follows o result p r =
      next {t = left (operations l.queue) o}
        (next (here refl) (answers o [] (operations l.queue) (rw (p, r) refl) refl refl refl refl))
        (closes (rw r refl) (completed-event l.events o (settled result)) refl refl)

  taken_down-Follows :
      (o : Option ℕ) → l.phase ≡ leaving o → Follows (service l) (service (taken_down o l))
  unfolding taken_down leave
  taken_down-Follows none p =
      next (here refl) (closes (rw p refl) (completed-append l.events [] ∙ append-nil _) refl refl)
  taken_down-Follows (some o) p =
      next {t = left (operations l.running ++ operations l.queue) o}
        (next (here refl)
          (answers o (operations l.running) (operations l.queue) (rw p refl) refl refl refl refl))
        (closes refl (completed-event l.events o (err shutdown_timed_out)) refl refl)

  abandons-Follows :
      (command : Command) (before after : List Command)
      → l.phase ≡ ended
      → l.running ≡ before ++ (command ∷ after)
      → Follows
          (service l)
          (service (record l { running = before ++ after; lost = l.lost ++ (command ∷ []) }))
  abandons-Follows command before after e r = next (here refl) (
      drops (operation_handle command) (operations before)
        (operations after ++ (shutdown_of l.phase ++ operations l.queue)) (ap is_open e)
        (rw (r, map-append, append_assoc) refl) (rw (map-append, append_assoc) refl) refl refl
        (ap is_open e))

  discards-Follows :
      (command : Command) (rest : List Command)
      → l.phase ≡ ended
      → l.queue ≡ command ∷ rest
      → Follows (service l) (service (record l { queue = rest; lost = l.lost ++ (command ∷ []) }))
  discards-Follows command rest e q = next (here refl) (
      drops (operation_handle command) (operations l.running) (operations rest) (ap is_open e)
        (rw (e, q) refl) (rw e refl) refl refl (ap is_open e))

  same_phase :
      (phase : Phase)
      → shutdown_of l.phase ≡ shutdown_of phase
      → is_open l.phase ≡ is_open phase
      → Follows (service l) (service (record l { phase = phase }))
  same_phase phase a b = here (rw (a, b) refl)

-- Each step of the loop and its tasks is one of the service, or none, or two.
internal-Follows : {l m : Control} → Internal l m → Follows (service l) (service m)
internal-Follows (receives {l} command rest p q) = receives-Follows l command rest p q
internal-Follows (finishes {l} command before after result r) =
    finishes-Follows l command before after result r
internal-Follows (drains {l} o result p r) = drained-Follows l o result p r
internal-Follows (expires {l} o p) =
    same_phase l (leaving (some o)) (ap shutdown_of p) (ap is_open p)
internal-Follows (hangs_up {l} p q s) =
    same_phase l (leaving none) (ap shutdown_of p) (ap is_open p)
internal-Follows (goes_down {l} o p) = taken_down-Follows l o p
internal-Follows (abandons {l} command before after e r) =
    abandons-Follows l command before after e r
internal-Follows (discards {l} command rest e q) = discards-Follows l command rest e q

opens_if : (phase : Phase) → phase ≢ ended → is_open phase ≡ true
opens_if serving h = refl
opens_if (draining o) h = refl
opens_if (leaving o) h = refl
opens_if ended h = absurd (h refl)

snoc : (r s q : List ℕ) (o : ℕ) → r ++ (s ++ (q ++ (o ∷ []))) ≡ (r ++ (s ++ q)) ++ (o ∷ [])
snoc r s q o = sym (append_assoc r (s ++ q) (o ∷ []) ∙ ap (λ x. r ++ x) (append_assoc s q (o ∷ [])))

silent :
    (events : List NativeEvent) (event : NativeEvent)
    → (event.kind == Kind.operation_complete) ≡ false
    → completed (events ++ (event ∷ [])) ≡ completed events
silent events event e = completed-append events _ ∙ rw e (append-nil _)

external-Follows : {l m : Control} → External l m → Follows (service l) (service m)
unfolding submit complete_error
external-Follows (submits {l} command p s) = next (here refl) (
    asks (operation_handle command) (opens_if l.phase p)
      (rw map-append (
        snoc (operations l.running) (shutdown_of l.phase) (operations l.queue)
          (operation_handle command)))
      refl refl (opens_if l.phase p))
external-Follows releases = here refl
external-Follows (completes_error {l} o text) =
    next (here refl) (refuses o refl (completed-event l.events o (err (given text))) refl refl)
external-Follows (notifies {l} event e) = here (rw (silent l.events event e) refl)

follows_on : {s t u : Service} → Follows s t → Follows t u → Follows s u
follows_on {s = s} f (here e) = transport (λ i. Follows s (e i)) f
follows_on f (next g step) = next (follows_on f g) step

-- The control loop refines the promise: in every interleaving, what has been asked of a runtime and what
-- it has answered is what a service can do that answers only operations that were asked for, each once, or
-- that it refuses at once; that takes no operation any more after it has closed, and drops none before.
pub control_refines_service : (l : Control) → Reachable l → Follows (service opened) (service l)
control_refines_service l opens = here refl
control_refines_service l (inside {l = k} reach step) =
    follows_on (control_refines_service k reach) (internal-Follows step)
control_refines_service l (outside {l = k} reach step) =
    follows_on (control_refines_service k reach) (external-Follows step)
