-- ===== src/Runtime/Control.antt =====
-- The control loop of `run_runtime` of native/src/runtime.rs with commands that run at the same time: each
-- dispatched task is one that runs until it sends its completion or is dropped. The events that are not
-- completions are those of other tasks.
pub mod Account
pub mod Ends
pub mod Refines
use kestara_webrtc.Base.{
  ℕ, Bool, true, false, Option, none, some, List, [], ◌∷◌, ◌++◌, ◌≡◌, ◌≢◌, Text, ◌==◌,
  if◌then◌else◌,
}
use kestara_webrtc.Errors.{Error, shutdown_timed_out, given}
use kestara_webrtc.Events.{
  NativeEvent, OperationValue, default_value, Result, ok, err, operation_event,
}
use kestara_webrtc.Events.Kind
use kestara_webrtc.Runtime.Command.{Command, operation_handle, is_shutdown}

-- What the loop does: it waits for commands; a shutdown of an operation waits for the running tasks; the
-- runtime is taken down, after a shutdown whose time is up or because no sender is left; the end.
pub data Phase : Type 0 where
  serving : Phase
  draining : (operation : ℕ) → Phase
  leaving : (operation : Option ℕ) → Phase
  ended : Phase

-- `queue` are the commands that were not received yet, `running` those whose task runs. The last three
-- fields are of the model: the commands that were accepted, those that will never be completed, and the
-- operations that were completed with an error without a command.
pub record Control : Type 0 where
  pub queue : List Command
  pub running : List Command
  pub phase : Phase
  pub senders : Bool
  pub events : List NativeEvent
  pub sent : List Command
  pub lost : List Command
  pub refused : List ℕ

-- `submit` of a command while the receiver is there.
unfoldable pub submit : Command → Control → Control
submit command l = record l { queue = l.queue ++ (command ∷ []); sent = l.sent ++ (command ∷ []) }

-- One round of the loop for the command that is received, `rest` being left.
unfoldable pub receive : Command → List Command → Control → Control
receive command rest l =
    if is_shutdown command
    then record l { queue = rest; phase = draining (operation_handle command) }
    else record l { queue = rest; running = l.running ++ (command ∷ []) }

-- The end of a task: it sends the completion of its operation.
unfoldable pub finish : Command → List Command → Result OperationValue → Control → Control
finish command others result l = record l {
  running = others;
  events = l.events ++ (operation_event (operation_handle command) result ∷ []);
}

-- `complete_error`: the client has an operation completed with an error, whatever the loop does.
unfoldable pub complete_error : ℕ → Text → Control → Control
complete_error o text l = record l {
  events = l.events ++ (operation_event o (err (given text)) ∷ []);
  refused = l.refused ++ (o ∷ []);
}

-- The loop returns.
leave : List NativeEvent → Control → Control
leave events l = record l { phase = ended; events = l.events ++ events }

-- `result.map(|()| OperationValue::default())` where `shutdown_all` has returned in time.
unfoldable pub settled : Option Error → Result OperationValue
settled none = ok default_value
settled (some e) = err e

-- The shutdown of operation `o` is over in time, with the result of `shutdown_all`.
unfoldable pub drained : ℕ → Option Error → Control → Control
unfolding leave
drained o result l = leave (operation_event o (settled result) ∷ []) l

-- The runtime is down. The shutdown, if there was one, has timed out.
unfoldable pub taken_down : Option ℕ → Control → Control
unfolding leave
taken_down none l = leave [] l
taken_down (some o) l = leave (operation_event o (err shutdown_timed_out) ∷ []) l

-- What the loop and its tasks do. A task that was aborted, or that the executor dropped, ends without a
-- completion (`abandons`), and so do the commands that were not received (`discards`). When it is dropped
-- makes no difference, so that this stands after the loop has returned; a task whose thread is blocked may
-- still send its completion then (`finishes`).
pub data Internal : Control → Control → Type 0 where
  receives :
      {l : Control} (command : Command) (rest : List Command)
      → l.phase ≡ serving
      → l.queue ≡ command ∷ rest
      → Internal l (receive command rest l)
  finishes :
      {l : Control} (command : Command) (before after : List Command)
      (result : Result OperationValue)
      → l.running ≡ before ++ (command ∷ after)
      → Internal l (finish command (before ++ after) result l)
  drains :
      {l : Control} (o : ℕ) (result : Option Error)
      → l.phase ≡ draining o
      → l.running ≡ []
      → Internal l (drained o result l)
  expires :
      {l : Control} (o : ℕ)
      → l.phase ≡ draining o
      → Internal l (record l { phase = leaving (some o) })
  hangs_up :
      {l : Control}
      → l.phase ≡ serving
      → l.queue ≡ []
      → l.senders ≡ false
      → Internal l (record l { phase = leaving none })
  goes_down : {l : Control} (o : Option ℕ) → l.phase ≡ leaving o → Internal l (taken_down o l)
  abandons :
      {l : Control} (command : Command) (before after : List Command)
      → l.phase ≡ ended
      → l.running ≡ before ++ (command ∷ after)
      → Internal l (record l { running = before ++ after; lost = l.lost ++ (command ∷ []) })
  discards :
      {l : Control} (command : Command) (rest : List Command)
      → l.phase ≡ ended
      → l.queue ≡ command ∷ rest
      → Internal l (record l { queue = rest; lost = l.lost ++ (command ∷ []) })

-- What the client and other tasks do.
pub data External : Control → Control → Type 0 where
  submits :
      {l : Control} (command : Command)
      → l.phase ≢ ended
      → l.senders ≡ true
      → External l (submit command l)
  releases : {l : Control} → External l (record l { senders = false })
  completes_error : {l : Control} (o : ℕ) (text : Text) → External l (complete_error o text l)
  notifies :
      {l : Control} (event : NativeEvent)
      → (event.kind == Kind.operation_complete) ≡ false
      → External l (record l { events = l.events ++ (event ∷ []) })

abbrev pub opened : Control
opened = record {
  queue = [];
  running = [];
  phase = serving;
  senders = true;
  events = [];
  sent = [];
  lost = [];
  refused = [];
}

pub data Reachable : Control → Type 0 where
  opens : Reachable opened
  inside : {l m : Control} → Reachable l → Internal l m → Reachable m
  outside : {l m : Control} → Reachable l → External l m → Reachable m
