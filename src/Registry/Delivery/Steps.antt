-- ===== src/Registry/Delivery/Steps.antt =====
-- The interleavings of the polling task of one channel (native/src/registry.rs) with the client and
-- with all other tasks.
use kestara_webrtc.Base.{
  ℕ, ◌+◌, Bool, true, false, none, some, List, [], ◌∷◌, ◌++◌, ◌&&◌, ◌||◌, not, ◌==◌, ◌≡◌,
  if◌then◌else◌,
}
use kestara_webrtc.Events.{NativeEvent}
use kestara_webrtc.Events.Kind
use kestara_webrtc.Map.{Map}
use kestara_webrtc.Registry.State.{RuntimeState}
use kestara_webrtc.Registry.Delivery.{
  Link, Message, ChannelEvent, Buffer, permit_of, on_channel_event, deliver, stop, release_buffer,
  poll_jvm, poll_native,
}

-- The permits of channel `h` that one event carries. A wake event carries none.
abbrev pub carried : ℕ → NativeEvent → ℕ
carried h event = if event.kind == Kind.wake then 0 else permit_of h event.delivery_permit

unfoldable pub queued : ℕ → List NativeEvent → ℕ
queued h [] = 0
queued h (event ∷ rest) = carried h event + queued h rest

unfoldable pub held : ℕ → Map Buffer → ℕ
held h [] = 0
held h ((k, b) ∷ rest) = permit_of h b.delivery_permit + held h rest

-- The events of channel `h`, in order, without the completions of the operations on it.
abbrev pub concerns : ℕ → NativeEvent → Bool
concerns h event =
    event.channel_handle == h
    && not (event.kind == Kind.wake || event.kind == Kind.operation_complete)

-- The event brings a message.
abbrev pub is_message : NativeEvent → Bool
is_message event = event.kind == Kind.data_channel_text || event.kind == Kind.data_channel_binary

unfoldable pub events_of : ℕ → List NativeEvent → List NativeEvent
events_of h [] = []
events_of h (event ∷ rest) = if concerns h event then event ∷ events_of h rest else events_of h rest

-- How many of the events are messages of channel `h`.
abbrev pub one_message : ℕ → NativeEvent → ℕ
one_message h event = if concerns h event && is_message event then 1 else 0

abbrev pub messages : ℕ → List NativeEvent → ℕ
messages h [] = 0
messages h (event ∷ rest) = one_message h event + messages h rest

abbrev pub arrive : ChannelEvent → Link → Link
arrive e l = record l { arrived = l.arrived ++ (e ∷ []) }

module _ (peer h : ℕ) where
  -- The task takes an event, gets a permit, or ends, because the channel has no more events, the
  -- runtime is gone, or the task is aborted; the client polls or releases a buffer; or other tasks
  -- change the state, without permits of this channel or events of it, other than completions.
  pub data Step : Link → Link → Type 0 where
    event_comes :
        {l : Link} (e : ChannelEvent)
        → l.running ≡ true
        → l.waiting ≡ none
        → Step l (on_channel_event peer h e (arrive e l))
    permit_comes :
        {l : Link} (m : Message) (left : ℕ)
        → l.running ≡ true
        → l.waiting ≡ some m
        → l.available ≡ left + 1
        → Step l (deliver peer h m left l)
    events_end : {l : Link} → l.running ≡ true → l.waiting ≡ none → Step l (stop h l)
    runtime_gone :
        {l : Link} → l.running ≡ true → l.waiting ≡ none → Step l (record l { running = false })
    aborted : {l : Link} → l.running ≡ true → Step l (record l { running = false; waiting = none })
    jvm_polls : {l : Link} → Step l (poll_jvm h l)
    native_polls : {l : Link} → Step l (poll_native h l)
    buffer_released : {l : Link} (b : ℕ) → Step l (release_buffer h b l)
    others_act :
        {l : Link} (t : RuntimeState)
        → queued h t.events ≡ queued h l.state.events
        → events_of h t.events ≡ events_of h l.state.events
        → Step l (record l { state = t })

  pub data Runs : Link → Link → Type 0 where
    still : {l : Link} → Runs l l
    further : {l m n : Link} → Runs l m → Step m n → Runs l n
