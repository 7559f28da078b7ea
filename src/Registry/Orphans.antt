-- ===== src/Registry/Orphans.antt =====
-- `register_channel` of native/src/registry.rs inserts the channel before it looks the peer up, and
-- `close_peer` removes the peer without waiting for the operations that hold its lock.
use kestara_webrtc.Base.{ℕ, ◌≡◌, refl, ◌∙◌, Bool, true, false, none, some, ==_self}
use kestara_webrtc.Errors.{unknown_peer}
use kestara_webrtc.Map
use kestara_webrtc.Map.{get-insert}
use kestara_webrtc.Registry.State.{RuntimeState, Engine, ChannelEntry}
use kestara_webrtc.Registry.Task.{fails, pure, gets, modify, ◌>>=◌}
use kestara_webrtc.Registry.Access.{send_event, push_event}
use kestara_webrtc.Registry.Channels.{
  ChannelInfo, add_channel, created_event, install_channel, forget_channel, close_channel_entry,
  close_data_channel,
}
use kestara_webrtc.Registry.Runs.{lock_bind, get_peer_missing}

abbrev entry_of : ℕ → ℕ → ChannelEntry
entry_of channel peer = record { channel = channel; peer_handle = peer }

-- The state after a registration whose peer is gone: the channel is in the registry, and the event is
-- sent if one is wanted.
abbrev pub orphaned : Engine → ℕ → ℕ → Bool → ℕ → ChannelInfo → RuntimeState → RuntimeState
orphaned eng peer channel true h info s =
    push_event (created_event peer h (eng.channel_id channel) info)
      (add_channel h (entry_of channel peer) s)
orphaned eng peer channel false h info s = add_channel h (entry_of channel peer) s

install_channel_orphans :
    (eng : Engine) (peer channel : ℕ) (emit : Bool) (h : ℕ) (info : ChannelInfo) (s : RuntimeState)
    → s.poisoned ≡ false
    → Map.get peer s.peers ≡ none
    → install_channel eng peer channel emit h info s
      ≡ (fails (unknown_peer peer), orphaned eng peer channel emit h info s)
unfolding install_channel send_event pure modify ◌>>=◌ push_event add_channel
install_channel_orphans eng peer channel true h info s e p =
    lock_bind s _ e ∙ get_peer_missing _ peer _ e p
install_channel_orphans eng peer channel false h info s e p =
    lock_bind s _ e ∙ get_peer_missing _ peer _ e p

found_entry :
    (h channel peer : ℕ) (s : RuntimeState)
    → Map.get h (Map.insert h (entry_of channel peer) s.channels) ≡ some (entry_of channel peer)
found_entry h channel peer s = rw (get-insert, ==_self)

close_orphan :
    (eng : Engine) (h : ℕ) (entry : ChannelEntry) (t : RuntimeState)
    → t.poisoned ≡ false
    → Map.get h t.channels ≡ some entry
    → Map.get entry.peer_handle t.peers ≡ none
    → close_data_channel eng h t ≡ (fails (unknown_peer entry.peer_handle), forget_channel h t)
unfolding close_data_channel close_channel_entry gets modify ◌>>=◌ forget_channel
close_orphan eng h entry t e found gone =
    lock_bind t _ e
    ∙ rw (found, close_channel_entry) (get_peer_missing _ entry.peer_handle _ e gone)

-- A peer was closed before a channel of it is registered. The registration fails, and yet it leaves
-- the channel in the registry, with no task that polls it; and `close_data_channel` of it fails on
-- the missing peer without a call of the library's `close`.
pub orphaned_channel :
    (eng : Engine) (peer channel : ℕ) (emit : Bool) (h : ℕ) (info : ChannelInfo) (s : RuntimeState)
    → s.poisoned ≡ false
    → Map.get peer s.peers ≡ none
    → let t = (install_channel eng peer channel emit h info s).1 in
      ((install_channel eng peer channel emit h info s).0 ≡ fails (unknown_peer peer))
      × (Map.get h t.channels ≡ some (record { channel = channel; peer_handle = peer }))
      × (t.spawned ≡ s.spawned)
      × (close_data_channel eng h t ≡ (fails (unknown_peer peer), forget_channel h t))
unfolding push_event add_channel
orphaned_channel eng peer channel true h info s e p =
    let found = found_entry h channel peer s in
    rw (install_channel_orphans eng peer channel true h info s e p)
      (refl, found, refl, close_orphan eng h (entry_of channel peer) _ e found p)
orphaned_channel eng peer channel false h info s e p =
    let found = found_entry h channel peer s in
    rw (install_channel_orphans eng peer channel false h info s e p)
      (refl, found, refl, close_orphan eng h (entry_of channel peer) _ e found p)
