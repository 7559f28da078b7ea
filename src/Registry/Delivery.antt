-- ===== src/Registry/Delivery.antt =====
-- The delivery of one channel's events: `poll_data_channel` of native/src/registry.rs, the delivery
-- buffers of native/src/runtime.rs, and the polling of the queue by the two bridges.
pub mod Steps
pub mod Covered
pub mod Permits
pub mod Account
pub mod Order
use kestara_webrtc.Base.{
  ℕ, zero, suc, ◌+◌, ◌%◌, ◌^◌, Bool, true, false, Option, none, some, List, [], ◌∷◌, ◌++◌, Text,
  codes, ◌==◌, ◌≡◌, if◌then◌else◌,
}
use kestara_webrtc.Base.Utf8.{from_utf8_lossy}
use kestara_webrtc.Events.{NativeEvent, channel_event, poll}
use kestara_webrtc.Events.Kind
use kestara_webrtc.Map
use kestara_webrtc.Map.{Map}
use kestara_webrtc.Registry.State.{RuntimeState}
use kestara_webrtc.Registry.Access.{push_event}
use kestara_webrtc.Registry.Channels.{forget_channel}

pub record Message : Type 0 where
  pub is_string : Bool
  pub bytes : List ℕ

pub data ChannelEvent : Type 0 where
  on_open on_error on_closing on_close : ChannelEvent
  on_message : Message → ChannelEvent
  on_buffered_amount_low on_buffered_amount_high : ChannelEvent

-- `NativeBufferEntry`
pub record Buffer : Type 0 where
  pub bytes : List ℕ
  pub delivery_permit : Option ℕ

-- The polling task of a channel with what it shares: the runtime's state, its delivery buffers, and
-- the semaphore's free permits. `waiting` is the message for which the task waits for a permit. The
-- last two fields are of the model: what the library has sent on the channel and what the client has
-- polled so far.
pub record Link : Type 0 where
  pub state : RuntimeState
  pub buffers : Map Buffer
  pub next_buffer : ℕ
  pub available : ℕ
  pub waiting : Option Message
  pub running : Bool
  pub arrived : List ChannelEvent
  pub received : List NativeEvent

-- The permit of a message is named by the channel `h` whose semaphore it comes from.
unfoldable pub message_event : ℕ → ℕ → Message → NativeEvent
message_event peer h m =
    if m.is_string
    then record (channel_event Kind.data_channel_text peer h) {
      text = some (from_utf8_lossy m.bytes);
      delivery_permit = some h;
    }
    else record (channel_event Kind.data_channel_binary peer h) {
      payload = some m.bytes;
      delivery_permit = some h;
    }

-- What the client is sent of an event of the library.
unfoldable pub sent_event : ℕ → ℕ → ChannelEvent → NativeEvent
sent_event peer h on_open = channel_event Kind.data_channel_open peer h
sent_event peer h on_error = record (channel_event Kind.data_channel_error peer h) {
  text = some (codes "The native DataChannel reported an error");
}
sent_event peer h on_closing = channel_event Kind.data_channel_closing peer h
sent_event peer h on_close = channel_event Kind.data_channel_closed peer h
sent_event peer h (on_message m) = message_event peer h m
sent_event peer h on_buffered_amount_low = channel_event Kind.buffered_amount_low peer h
sent_event peer h on_buffered_amount_high = channel_event Kind.buffered_amount_high peer h

unfoldable pub push : NativeEvent → Link → Link
push event l = record l { state = push_event event l.state }

-- The end of the loop: the channel leaves the registry, unless its lock is poisoned.
unfoldable pub stop : ℕ → Link → Link
stop h l = record l {
  state = if l.state.poisoned then l.state else forget_channel h l.state;
  running = false;
}

-- One round of the loop. A message has to wait for a permit, and `on_close` ends the loop.
unfoldable pub on_channel_event : ℕ → ℕ → ChannelEvent → Link → Link
on_channel_event peer h (on_message m) l = record l { waiting = some m }
on_channel_event peer h on_close l = stop h (push (sent_event peer h on_close) l)
on_channel_event peer h on_open l = push (sent_event peer h on_open) l
on_channel_event peer h on_error l = push (sent_event peer h on_error) l
on_channel_event peer h on_closing l = push (sent_event peer h on_closing) l
on_channel_event peer h on_buffered_amount_low l = push (sent_event peer h on_buffered_amount_low) l
on_channel_event peer h on_buffered_amount_high l =
    push (sent_event peer h on_buffered_amount_high) l

-- A permit is there for the message that waits.
unfoldable pub deliver : ℕ → ℕ → Message → ℕ → Link → Link
deliver peer h m left l =
    push (message_event peer h m) (record l { waiting = none; available = left })

-- 1 if the permit is one of channel `h`, else 0.
abbrev pub permit_of : ℕ → Option ℕ → ℕ
permit_of h none = 0
permit_of h (some c) = if c == h then 1 else 0

abbrev pub buffer_permit : ℕ → Option Buffer → ℕ
buffer_permit h none = 0
buffer_permit h (some b) = permit_of h b.delivery_permit

-- `register_buffer`. An entry that the insertion replaces is dropped, and its permit with it.
unfoldable pub register_buffer : ℕ → List ℕ → Option ℕ → Link → Link
register_buffer h bytes permit l = record l {
  buffers = Map.insert l.next_buffer (record { bytes = bytes; delivery_permit = permit }) l.buffers;
  next_buffer = (l.next_buffer + 1) % 2 ^ 64;
  available = l.available + buffer_permit h (Map.get l.next_buffer l.buffers);
}

unfoldable pub release_buffer : ℕ → ℕ → Link → Link
release_buffer h handle l = record l {
  buffers = Map.remove handle l.buffers;
  available = l.available + buffer_permit h (Map.get handle l.buffers);
}

abbrev pub or_no_bytes : Option (List ℕ) → List ℕ
or_no_bytes none = []
or_no_bytes (some bytes) = bytes

unfoldable pub receive : NativeEvent → Link → Link
receive event l = record l { received = l.received ++ (event ∷ []) }

-- A permit that comes with the event goes into a buffer with the event's bytes.
unfoldable pub keep_permit : ℕ → NativeEvent → Option ℕ → Link → Link
keep_permit h event none l = l
keep_permit h event (some c) l = register_buffer h (or_no_bytes event.payload) (some c) l

unfoldable pub jvm_event : ℕ → Option NativeEvent → Link → Link
jvm_event h none l = l
jvm_event h (some event) l = keep_permit h event event.delivery_permit (receive event l)

unfoldable pub native_event : ℕ → Option NativeEvent → Link → Link
native_event h none l = l
native_event h (some event) l =
    let l' = receive event l in
    record l' { available = l'.available + permit_of h event.delivery_permit }

unfoldable pub take_event : Link → Option NativeEvent × Link
take_event l =
    let (event, rest) = poll l.state.events in
    (event, record l { state = record l.state { events = rest } })

-- `nativePollRuntimeEvent` of the JVM: the permit is held until the client releases the buffer.
unfoldable pub poll_jvm : ℕ → Link → Link
poll_jvm h l = let (event, l') = take_event l in jvm_event h event l'

-- `kestara_runtime_poll` of the C ABI: the permit is dropped with the event.
unfoldable pub poll_native : ℕ → Link → Link
poll_native h l = let (event, l') = take_event l in native_event h event l'
