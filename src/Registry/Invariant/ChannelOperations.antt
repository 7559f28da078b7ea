-- ===== src/Registry/Invariant/ChannelOperations.antt =====
-- Every operation of native/src/registry.rs on channels only goes forward, on every path.
use kestara_webrtc.Base.{ℕ, refl, Bool, true, false, Option, none, some, List, Text}
use kestara_webrtc.Errors.{Attempt}
use kestara_webrtc.Registry.Types.{DataChannelConfiguration}
use kestara_webrtc.Registry.State.{
  RuntimeState, Engine, ChannelEntry, TrySent, sent, buffer_full, refused,
}
use kestara_webrtc.Registry.Access.{send_event}
use kestara_webrtc.Registry.Channels
use kestara_webrtc.Registry.Invariant.Defs.{Rely}
use kestara_webrtc.Registry.Invariant.Rules.{
  Ensures, Ensures-pure, Ensures-fail, Ensures-bind, Ensures-if, Ensures-send_event,
}
use kestara_webrtc.Registry.Invariant.Steps.{forget_channel-Later}
use kestara_webrtc.Registry.Invariant.Fresh.{
  Goes, Goes-Ensures, Goes-bind, Goes-add_channel, Ensures-next_handle,
}
use kestara_webrtc.Registry.Invariant.Operations.{
  access_rules, lock_registry-Ensures, lock_peer-Ensures,
}

module _ {o : ℕ} (eng : Engine) (rely : Rely o eng) where
  pub send_text-Ensures : (h : ℕ) (text : Text) → Ensures o (Channels.send_text eng h text)
  unfolding Channels.send_text
  send_text-Ensures h text = search (access_rules, lock_peer-Ensures eng rely) depth 14

  pub send_binary-Ensures :
      (h : ℕ) (payload : List ℕ) → Ensures o (Channels.send_binary eng h payload)
  unfolding Channels.send_binary
  send_binary-Ensures h payload = search (access_rules, lock_peer-Ensures eng rely) depth 14

  try_outcome-Ensures :
      (attempt : Attempt) (r : TrySent) → Ensures o (Channels.try_outcome attempt r)
  unfolding Channels.try_outcome
  try_outcome-Ensures attempt sent = Ensures-pure true
  try_outcome-Ensures attempt buffer_full = Ensures-pure false
  try_outcome-Ensures attempt (refused text) = Ensures-fail _

  pub try_send_text-Ensures : (h : ℕ) (text : Text) → Ensures o (Channels.try_send_text eng h text)
  unfolding Channels.try_send_text
  try_send_text-Ensures h text = search (access_rules, try_outcome-Ensures) depth 14

  pub try_send_binary-Ensures :
      (h : ℕ) (payload : List ℕ) → Ensures o (Channels.try_send_binary eng h payload)
  unfolding Channels.try_send_binary
  try_send_binary-Ensures h payload = search (access_rules, try_outcome-Ensures) depth 14

  pub data_channel_writable-Ensures : (h : ℕ) → Ensures o (Channels.data_channel_writable eng h)
  unfolding Channels.data_channel_writable
  data_channel_writable-Ensures h = search access_rules depth 14

  pub data_channel_outstanding_bytes-Ensures :
      (h : ℕ) → Ensures o (Channels.data_channel_outstanding_bytes eng h)
  unfolding Channels.data_channel_outstanding_bytes
  data_channel_outstanding_bytes-Ensures h = search access_rules depth 14

  pub set_data_channel_thresholds-Ensures :
      (h low high : ℕ) → Ensures o (Channels.set_data_channel_thresholds eng h low high)
  unfolding Channels.set_data_channel_thresholds
  set_data_channel_thresholds-Ensures h low high = search access_rules depth 14

  pub close_channel_entry-Ensures :
      (entry : Option ChannelEntry) → Ensures o (Channels.close_channel_entry eng entry)
  unfolding Channels.close_channel_entry
  close_channel_entry-Ensures none = Ensures-pure tt
  close_channel_entry-Ensures (some entry) =
      search (access_rules, lock_peer-Ensures eng rely) depth 12

  pub close_data_channel-Ensures : (h : ℕ) → Ensures o (Channels.close_data_channel eng h)
  unfolding Channels.close_data_channel
  close_data_channel-Ensures h =
      search (access_rules, forget_channel-Later, close_channel_entry-Ensures) depth 12

  inspect_channel-Ensures : (channel : ℕ) → Ensures o (Channels.inspect_channel eng channel)
  unfolding Channels.inspect_channel
  inspect_channel-Ensures channel = search access_rules depth 20

  created_event-Ensures :
      (peer h id : ℕ) (info : Channels.ChannelInfo)
      → Ensures o (send_event (Channels.created_event peer h id info))
  unfolding Channels.created_event
  created_event-Ensures peer h id info = Ensures-send_event _ refl

  install_channel-Goes :
      (s : RuntimeState) (h peer channel : ℕ) (emit : Bool) (info : Channels.ChannelInfo)
      → Goes o s h (Channels.install_channel eng peer channel emit h info)
  unfolding Channels.install_channel
  install_channel-Goes s h peer channel emit info =
      Goes-bind _ _ (Goes-Ensures lock_registry-Ensures) λ _.
        Goes-bind _ _ (Goes-add_channel _) λ _. Goes-Ensures (
          Ensures-bind _ _
            (Ensures-if emit _ _ (created_event-Ensures peer h _ info) (Ensures-pure tt))
            λ _. search access_rules depth 12)

  pub register_channel-Ensures :
      (peer channel : ℕ) (emit : Bool) → Ensures o (Channels.register_channel eng peer channel emit)
  unfolding Channels.register_channel
  register_channel-Ensures peer channel emit = Ensures-next_handle _ λ s h.
      Goes-bind _ _ (Goes-Ensures (inspect_channel-Ensures channel))
        λ info. install_channel-Goes s h peer channel emit info

  pub create_data_channel-Ensures :
      (peer : ℕ) (c : DataChannelConfiguration)
      → Ensures o (Channels.create_data_channel eng peer c)
  unfolding Channels.create_data_channel
  create_data_channel-Ensures peer c =
      search (access_rules, lock_peer-Ensures eng rely, register_channel-Ensures) depth 14
