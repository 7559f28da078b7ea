-- ===== src/Runtime/Control/Ends.antt =====
-- The control loop of native/src/runtime.rs ends once it has received a shutdown.
use kestara_webrtc.Base.{
  ℕ, suc, ◌+◌, ◌*◌, ◌<◌, ◌≤◌, ◌≡◌, refl, sym, ap, ◌∙◌, none, some, List, [], ◌∷◌, ◌++◌, ◌==◌,
  length, if◌then◌else◌, Bool-cases, inl, inr, arith, ==_self,
}
use mathlib.Core.Path.{transport}
use kestara_webrtc.Errors.{shutdown_timed_out}
use kestara_webrtc.Events.{
  NativeEvent, operation_event, Result, err, OperationValue, completions, completions-append,
}
use kestara_webrtc.Runtime.Command.{Command, operation_handle, is_shutdown}
use kestara_webrtc.Runtime.Completion.{completions_event}
use kestara_webrtc.Runtime.Control.{
  Phase, serving, draining, leaving, ended, Control, receive, finish, leave, settled, drained,
  taken_down, Internal, receives, finishes, drains, expires, hangs_up, goes_down, abandons,
  discards,
}

-- Steps of the loop and its tasks, without the client.
pub data Steps : ℕ → Control → Control → Type 0 where
  stays : {l : Control} → Steps 0 l l
  steps : {n : ℕ} {l m k : Control} → Steps n l m → Internal m k → Steps (suc n) l k

abbrev weight : Phase → ℕ
weight serving = 2
weight (draining o) = 2
weight (leaving o) = 1
weight ended = 0

-- Bounds how many steps are left.
abbrev pub measure : Control → ℕ
measure l = 2 * length l.queue + length l.running + weight l.phase

length-append : (xs ys : List Command) → length (xs ++ ys) ≡ length xs + length ys
length-append [] ys = omega arith
length-append (x ∷ xs) ys = omega (arith, length-append xs ys)

Internal-decreases : {l m : Control} → Internal l m → measure m < measure l
unfolding receive finish leave drained taken_down
Internal-decreases (receives {l} command rest p q) =
    let phase : weight l.phase ≡ 2 = ap weight p in
    let queue : length l.queue ≡ suc (length rest) = ap length q in
    elim (Bool-cases (is_shutdown command)) [
      | inl e ↦ rw e (omega (arith, phase, queue))
      | inr e ↦ rw e (omega (arith, phase, queue, length-append l.running (command ∷ [])))
    ]
Internal-decreases (finishes {l} command before after result r) =
    let running : length l.running ≡ length (before ++ (command ∷ after)) = ap length r in
    omega (arith, running, length-append before (command ∷ after), length-append before after)
Internal-decreases (drains {l} o result p r) =
    let phase : weight l.phase ≡ 2 = ap weight p in omega (arith, phase)
Internal-decreases (expires {l} o p) =
    let phase : weight l.phase ≡ 2 = ap weight p in omega (arith, phase)
Internal-decreases (hangs_up {l} p q s) =
    let phase : weight l.phase ≡ 2 = ap weight p in omega (arith, phase)
Internal-decreases (goes_down {l} none p) =
    let phase : weight l.phase ≡ 1 = ap weight p in omega (arith, phase)
Internal-decreases (goes_down {l} (some o) p) =
    let phase : weight l.phase ≡ 1 = ap weight p in omega (arith, phase)
Internal-decreases (abandons {l} command before after e r) =
    let running : length l.running ≡ length (before ++ (command ∷ after)) = ap length r in
    omega (arith, running, length-append before (command ∷ after), length-append before after)
Internal-decreases (discards {l} command rest e q) =
    let queue : length l.queue ≡ suc (length rest) = ap length q in omega (arith, queue)

-- Without new commands the loop and its tasks take at most two steps for each command that waits, one for
-- each that runs, and two to end.
pub loop_terminates : {n : ℕ} {l m : Control} → Steps n l m → n + measure m ≤ measure l
loop_terminates stays = omega arith
loop_terminates (steps {n} more step) = omega (arith, loop_terminates more, Internal-decreases step)

-- A shutdown of the operation `o` goes on, or is over and its completion was sent, where `base` completions
-- of `o` had been sent before and `now` have been sent.
abbrev Toward : (o base now : ℕ) → Phase → Type 0
Toward o base now serving = ⊥
Toward o base now (draining p) = (p ≡ o) × (base ≤ now)
Toward o base now (leaving none) = ⊥
Toward o base now (leaving (some p)) = (p ≡ o) × (base ≤ now)
Toward o base now ended = base < now

one_more :
    (o p : ℕ) (events : List NativeEvent) (result : Result OperationValue)
    → completions o (events ++ (operation_event p result ∷ []))
      ≡ completions o events + (if p == o then 1 else 0)
one_more o p events result =
    completions-append o events _
    ∙ ap (λ n. completions o events + n) (completions_event o p result)

own_one :
    (o p : ℕ) (events : List NativeEvent) (result : Result OperationValue)
    → p ≡ o
    → completions o (events ++ (operation_event p result ∷ [])) ≡ completions o events + 1
own_one o p events result same = one_more o p events result ∙ rw (same, ==_self o) refl

module _ (o base : ℕ) where
  abbrev On : Control → Type 0
  On l = Toward o base (completions o l.events) l.phase

  was :
      (l : Control) (phase : Phase)
      → On l
      → l.phase ≡ phase
      → Toward o base (completions o l.events) phase
  was l phase on e = transport (λ i. Toward o base (completions o l.events) (e i)) on

  grows : (phase : Phase) (a b : ℕ) → a ≤ b → Toward o base a phase → Toward o base b phase
  grows (draining p) a b le (e, h) = (e, omega (arith, le, h))
  grows (leaving none) a b le h = h
  grows serving a b le h = h
  grows (leaving (some p)) a b le (e, h) = (e, omega (arith, le, h))
  grows ended a b le h = omega (arith, le, h)

  Internal-On : {l m : Control} → On l → Internal l m → On m
  unfolding receive finish leave drained taken_down
  Internal-On on (receives {l} command rest p q) = absurd (was l serving on p)
  Internal-On on (finishes {l} command before after result r) =
      grows l.phase _ _ (omega (arith, one_more o (operation_handle command) l.events result)) on
  Internal-On on (drains {l} p result e r) =
      let (same, le) = was l (draining p) on e in
      omega (arith, le, own_one o p l.events (settled result) same)
  Internal-On on (expires {l} p e) = was l (draining p) on e
  Internal-On on (hangs_up {l} p q s) = absurd (was l serving on p)
  Internal-On on (goes_down {l} none e) = absurd (was l (leaving none) on e)
  Internal-On on (goes_down {l} (some p) e) =
      let (same, le) = was l (leaving (some p)) on e in
      omega (arith, le, own_one o p l.events (err shutdown_timed_out) same)
  Internal-On on (abandons {l} command before after e r) = on
  Internal-On on (discards {l} command rest e q) = on

  Steps-On : {n : ℕ} {l m : Control} → On l → Steps n l m → On m
  Steps-On on stays = on
  Steps-On on (steps more step) = Internal-On (Steps-On on more) step

  -- While it goes on there is a step.
  goes-On :
      (m : Control) (phase : Phase)
      → m.phase ≡ phase
      → On m
      → ((k : Control) → Internal m k → ⊥)
      → (m.phase ≡ ended) × (base < completions o m.events)
  goes-On m serving e on stuck = absurd (was m serving on e)
  goes-On m (draining p) e on stuck = absurd (stuck _ (expires p e))
  goes-On m (leaving p) e on stuck = absurd (stuck _ (goes_down p e))
  goes-On m ended e on stuck = (e, was m ended on e)

-- Once a shutdown has been received, the loop and its tasks go on until the loop has returned and the
-- shutdown's completion was sent, whatever tasks hang: where no further step can be taken, this is so.
-- By `loop_terminates` that point is reached.
pub shutdown_ends :
    (o n : ℕ) (l m : Control)
    → l.phase ≡ draining o
    → Steps n l m
    → ((k : Control) → Internal m k → ⊥)
    → (m.phase ≡ ended) × (completions o l.events < completions o m.events)
shutdown_ends o n l m e run stuck =
    goes-On o (completions o l.events) m m.phase refl
      (Steps-On o (completions o l.events)
        (transport (λ i. Toward o (completions o l.events) (completions o l.events) (sym e i))
          (refl, omega arith))
        run)
      stuck

not_over : (p phase : Phase) → 0 < weight phase → p ≡ phase → p ≡ ended → ⊥
not_over p phase more e over =
    let a : weight phase ≡ weight ended = ap weight (sym e ∙ over) in omega (arith, a, more)

-- A loop that has returned takes no step when nothing runs or waits.
pub returned_stuck :
    {l k : Control} → Internal l k → l.phase ≡ ended → l.running ≡ [] → l.queue ≡ [] → ⊥
returned_stuck (receives command rest p q) over idle empty = not_over _ serving (omega arith) p over
returned_stuck (finishes command before after result r) over idle empty =
    let a : 0 ≡ length (before ++ (command ∷ after)) = ap length (sym idle ∙ r) in
    omega (arith, a, length-append before (command ∷ after))
returned_stuck (drains o result p r) over idle empty = not_over _ (draining o) (omega arith) p over
returned_stuck (expires o p) over idle empty = not_over _ (draining o) (omega arith) p over
returned_stuck (hangs_up p q s) over idle empty = not_over _ serving (omega arith) p over
returned_stuck (goes_down o p) over idle empty = not_over _ (leaving o) (omega arith) p over
returned_stuck (abandons command before after e r) over idle empty =
    let a : 0 ≡ length (before ++ (command ∷ after)) = ap length (sym idle ∙ r) in
    omega (arith, a, length-append before (command ∷ after))
returned_stuck (discards command rest e q) over idle empty =
    let a : 0 ≡ suc (length rest) = ap length (sym empty ∙ q) in omega (arith, a)
