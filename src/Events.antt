-- ===== src/Events.antt =====
-- native/src/events.rs: the events that a runtime sends to Kotlin, and the queue that carries them.
-- A permit is named by the channel handle whose semaphore issued it.
pub mod Kind
pub mod Queue
use kestara_webrtc.Base.{
  ◌+◌, ◌&&◌, arith, ℕ, ◌≡◌, refl, Bool, Option, none, some, List, [], ◌∷◌, ◌++◌, Text, ℤ, pos, ◌==◌,
  if◌then◌else◌,
}
use kestara_webrtc.Errors.{Error, message}

pub record NativeEvent : Type 0 where
  pub kind : ℕ
  pub peer_handle : ℕ
  pub channel_handle : ℕ
  pub operation_handle : ℕ
  pub text : Option Text
  pub secondary_text : Option Text
  pub number : ℤ
  pub payload : Option (List ℕ)
  pub delivery_permit : Option ℕ

pub record OperationValue : Type 0 where
  pub peer_handle : ℕ
  pub channel_handle : ℕ
  pub text : Option Text
  pub payload : Option (List ℕ)

abbrev pub default_value : OperationValue
default_value = record { peer_handle = 0; channel_handle = 0; text = none; payload = none }

-- `Result<_, String>`
pub data Result {ℓ} (A : Type ℓ) : Type ℓ where
  ok : A → Result A
  err : Error → Result A

unfoldable pub peer_event : ℕ → ℕ → ℤ → NativeEvent
peer_event kind peer number = record {
  kind = kind;
  peer_handle = peer;
  channel_handle = 0;
  operation_handle = 0;
  text = none;
  secondary_text = none;
  number = number;
  payload = none;
  delivery_permit = none;
}

unfoldable pub channel_event : ℕ → ℕ → ℕ → NativeEvent
channel_event kind peer channel = record {
  kind = kind;
  peer_handle = peer;
  channel_handle = channel;
  operation_handle = 0;
  text = none;
  secondary_text = none;
  number = pos 0;
  payload = none;
  delivery_permit = none;
}

unfoldable pub operation_event : ℕ → Result OperationValue → NativeEvent
operation_event operation (ok value) = record {
  kind = Kind.operation_complete;
  peer_handle = value.peer_handle;
  channel_handle = value.channel_handle;
  operation_handle = operation;
  text = value.text;
  secondary_text = none;
  number = pos 0;
  payload = value.payload;
  delivery_permit = none;
}
operation_event operation (err e) = record {
  kind = Kind.operation_complete;
  peer_handle = 0;
  channel_handle = 0;
  operation_handle = operation;
  text = none;
  secondary_text = some (message e);
  number = pos 1;
  payload = none;
  delivery_permit = none;
}

-- The queue as `recv_timeout` finds it when it returns: empty if the time ran out or no sender is
-- left. A wake event is taken out and reported as nothing.
unfoldable pub poll : List NativeEvent → Option NativeEvent × List NativeEvent
poll [] = (none, [])
poll (event ∷ rest) = ((if event.kind == Kind.wake then none else some event), rest)

unfoldable pub wake : List NativeEvent → List NativeEvent
unfolding peer_event
wake queue = queue ++ (peer_event Kind.wake 0 (pos 0) ∷ [])

-- How many completions of one operation stand in a queue.
abbrev pub is_completion : ℕ → NativeEvent → Bool
is_completion operation event =
    event.kind == Kind.operation_complete && event.operation_handle == operation

unfoldable pub completions : ℕ → List NativeEvent → ℕ
completions operation [] = 0
completions operation (event ∷ rest) =
    (if is_completion operation event then 1 else 0) + completions operation rest

pub completions-append :
    (o : ℕ) (xs ys : List NativeEvent)
    → completions o (xs ++ ys) ≡ completions o xs + completions o ys
unfolding completions
completions-append o [] ys = omega arith
completions-append o (x ∷ xs) ys = omega (arith, completions-append o xs ys)
