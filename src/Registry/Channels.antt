-- ===== src/Registry/Channels.antt =====
-- The operations of native/src/registry.rs on data channels.
use Prim.Native.Nat.{bit_or, min}
use kestara_webrtc.Base.{
  ℕ, ◌-◌, ◌*◌, ◌^◌, Bool, true, false, Option, none, some, List, [], ◌∷◌, ◌++◌, Text, ℤ, pos,
  negsuc, if◌then◌else◌,
}
use kestara_webrtc.Errors.{
  creating_channel, sending_text, sending_data, becoming_writable, reading_outstanding,
  setting_low_threshold, setting_high_threshold, closing_channel, Attempt, failed,
}
use kestara_webrtc.Events.{NativeEvent}
use kestara_webrtc.Events.Kind
use kestara_webrtc.Map
use kestara_webrtc.Wire.Bytes.{i32_le}
use kestara_webrtc.Registry.Types.{DataChannelConfiguration}
use kestara_webrtc.Registry.State.{
  RuntimeState, Engine, Call, ChannelEntry, Reply, good, TrySent, sent, buffer_full, refused,
  ChannelState, open_state, create_channel, channel_label, channel_protocol, channel_ordered,
  channel_negotiated, channel_life_time, channel_retransmits, channel_ready_state, writable,
  outstanding_bytes, set_low_threshold, set_high_threshold, close_channel, polls_channel, send,
}
use kestara_webrtc.Registry.Task.{
  Task, pure, fail, gets, modify, await, or_failed, reply_or, ◌>>=◌, ◌>>◌,
}
use kestara_webrtc.Registry.Access.{
  lock_registry, next_handle, send_event, spawn, get_peer, get_channel, lock_peer,
}

-- `map_or(-1, i32::from)`
abbrev pub or_minus_one : Option ℕ → ℤ
or_minus_one none = negsuc 0
or_minus_one (some n) = pos n

abbrev pub bool_number : Bool → ℕ
bool_number b = if b then 1 else 0

unfoldable pub channel_metadata : Bool → Option ℕ → Option ℕ → List ℕ
channel_metadata negotiated life_time retransmits =
    bool_number negotiated ∷ (i32_le (or_minus_one life_time) ++ i32_le (or_minus_one retransmits))

-- `i32::from(ordered) | (i32::from(open) << 1) | (i32::from(id) << 2)`
unfoldable pub channel_flags : Bool → Bool → ℕ → ℕ
channel_flags ordered open_now id =
    bit_or (bit_or (bool_number ordered) (bool_number open_now * 2)) (id * 4)

abbrev pub is_open : Reply ChannelState → Bool
is_open (good open_state) = true
is_open _ = false

-- What `register_channel` asks the library about a channel.
pub record ChannelInfo : Type 0 where
  pub label : Text
  pub protocol : Text
  pub ordered : Bool
  pub negotiated : Bool
  pub max_packet_life_time : Option ℕ
  pub max_retransmits : Option ℕ
  pub is_open_now : Bool

unfoldable pub inspect_channel : Engine → ℕ → Task ChannelInfo
inspect_channel eng channel = do
  label ← await eng (channel_label channel) eng.text_of
  protocol ← await eng (channel_protocol channel) eng.text_of
  ordered ← await eng (channel_ordered channel) eng.flag_of
  negotiated ← await eng (channel_negotiated channel) eng.flag_of
  life_time ← await eng (channel_life_time channel) eng.limit_of
  retransmits ← await eng (channel_retransmits channel) eng.limit_of
  ready ← await eng (channel_ready_state channel) eng.state_of
  pure (record {
    label = reply_or [] label;
    protocol = reply_or [] protocol;
    ordered = reply_or true ordered;
    negotiated = reply_or false negotiated;
    max_packet_life_time = reply_or none life_time;
    max_retransmits = reply_or none retransmits;
    is_open_now = is_open ready;
  })

unfoldable pub created_event : ℕ → ℕ → ℕ → ChannelInfo → NativeEvent
created_event peer_handle handle id info = record {
  kind = Kind.data_channel;
  peer_handle = peer_handle;
  channel_handle = handle;
  operation_handle = 0;
  text = some info.label;
  secondary_text = some info.protocol;
  number = pos (channel_flags info.ordered info.is_open_now id);
  payload = some (channel_metadata info.negotiated info.max_packet_life_time info.max_retransmits);
  delivery_permit = none;
}

unfoldable pub add_channel : ℕ → ChannelEntry → RuntimeState → RuntimeState
add_channel handle entry s = record s { channels = Map.insert handle entry s.channels }

-- The part of `register_channel` from the insertion on, which waits for nothing.
unfoldable pub install_channel : Engine → ℕ → ℕ → Bool → ℕ → ChannelInfo → Task ℕ
install_channel eng peer_handle channel emit handle info = do
  lock_registry
  modify (add_channel handle (record { channel = channel; peer_handle = peer_handle }))
  if emit
      then send_event (created_event peer_handle handle (eng.channel_id channel) info)
      else pure tt
  entry ← get_peer peer_handle
  spawn (polls_channel peer_handle handle channel entry.receive_queue_capacity)
  pure handle

unfoldable pub register_channel : Engine → ℕ → ℕ → Bool → Task ℕ
register_channel eng peer_handle channel emit = do
  handle ← next_handle
  info ← inspect_channel eng channel
  install_channel eng peer_handle channel emit handle info

unfoldable pub create_data_channel : Engine → ℕ → DataChannelConfiguration → Task (ℕ × ℕ)
create_data_channel eng peer_handle c = do
  entry ← get_peer peer_handle
  lock_peer eng peer_handle
  reply ←
      await eng
        (create_channel entry.peer c.label (record {
          ordered = c.ordered;
          max_packet_life_time = c.max_packet_life_time;
          max_retransmits = c.max_retransmits;
          protocol = c.protocol;
          negotiated = c.negotiated_id;
        }))
        eng.opened
  channel ← or_failed creating_channel reply
  handle ← register_channel eng peer_handle channel false
  pure (handle, eng.channel_id channel)

unfoldable pub send_text : Engine → ℕ → Text → Task (Unit {0})
send_text eng handle text = do
  entry ← get_channel handle
  get_peer entry.peer_handle
  lock_peer eng entry.peer_handle
  reply ← await eng (Call.send_text entry.channel text) eng.finished
  or_failed sending_text reply

unfoldable pub send_binary : Engine → ℕ → List ℕ → Task (Unit {0})
send_binary eng handle payload = do
  entry ← get_channel handle
  get_peer entry.peer_handle
  lock_peer eng entry.peer_handle
  reply ← await eng (send entry.channel payload) eng.finished
  or_failed sending_data reply

-- A full send buffer is an answer and no error.
unfoldable pub try_outcome : Attempt → TrySent → Task Bool
try_outcome attempt sent = pure true
try_outcome attempt buffer_full = pure false
try_outcome attempt (refused text) = fail (failed attempt text)

unfoldable pub try_send_text : Engine → ℕ → Text → Task Bool
try_send_text eng handle text = do
  entry ← get_channel handle
  reply ← await eng (Call.try_send_text entry.channel text) eng.try_sent
  try_outcome sending_text reply

unfoldable pub try_send_binary : Engine → ℕ → List ℕ → Task Bool
try_send_binary eng handle payload = do
  entry ← get_channel handle
  reply ← await eng (Call.try_send entry.channel payload) eng.try_sent
  try_outcome sending_data reply

unfoldable pub data_channel_writable : Engine → ℕ → Task (Unit {0})
data_channel_writable eng handle = do
  entry ← get_channel handle
  reply ← await eng (writable entry.channel) eng.finished
  or_failed becoming_writable reply

-- `u64::try_from(value).unwrap_or(u64::MAX)`
abbrev pub saturate_u64 : ℕ → ℕ
saturate_u64 n = min n (2 ^ 64 - 1)

unfoldable pub data_channel_outstanding_bytes : Engine → ℕ → Task ℕ
data_channel_outstanding_bytes eng handle = do
  entry ← get_channel handle
  reply ← await eng (outstanding_bytes entry.channel) eng.outstanding
  amount ← or_failed reading_outstanding reply
  pure (saturate_u64 amount)

unfoldable pub set_data_channel_thresholds : Engine → ℕ → ℕ → ℕ → Task (Unit {0})
set_data_channel_thresholds eng handle low high = do
  entry ← get_channel handle
  reply ← await eng (set_low_threshold entry.channel low) eng.finished
  or_failed setting_low_threshold reply
  reply' ← await eng (set_high_threshold entry.channel high) eng.finished
  or_failed setting_high_threshold reply'

unfoldable pub forget_channel : ℕ → RuntimeState → RuntimeState
forget_channel handle s = record s { channels = Map.remove handle s.channels }

unfoldable pub close_channel_entry : Engine → Option ChannelEntry → Task (Unit {0})
close_channel_entry eng none = pure tt
close_channel_entry eng (some entry) = do
  get_peer entry.peer_handle
  lock_peer eng entry.peer_handle
  reply ← await eng (close_channel entry.channel) eng.finished
  or_failed closing_channel reply

unfoldable pub close_data_channel : Engine → ℕ → Task (Unit {0})
close_data_channel eng handle = do
  lock_registry
  entry ← gets (λ s. Map.get handle s.channels)
  modify (forget_channel handle)
  close_channel_entry eng entry
