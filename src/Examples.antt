-- ===== src/Examples.antt =====
-- The theorems at work on small states: two peers and one channel, and a library that answers at once.
mod Commands
mod Ports
mod Delivery
mod Stats
mod Bridge
mod Jni
mod Control
mod Runtimes
use kestara_webrtc.Base.{
  ℕ, ◌+◌, ◌≤◌, ◌≡◌, ◌≢◌, refl, Bool, true, false, none, some, List, [], ◌∷◌, ◌++◌, codes, pos,
  negsuc, arith,
}
use mathlib.Core.List.{reverse}
use kestara_webrtc.Errors.{closing_peer, unknown_peer}
use kestara_webrtc.Events.{NativeEvent, completions}
use kestara_webrtc.Map
use kestara_webrtc.Registry.Types.{v4}
use kestara_webrtc.Registry.State.{
  RuntimeState, Engine, PeerEntry, ChannelEntry, Call, good, sent, open_state, lock_operations,
}
use kestara_webrtc.Registry.Task.{done, fails, await, or_failed, ok_or, check_lock, ◌>>=◌}
use kestara_webrtc.Registry.Channels.{
  ChannelInfo, send_text, install_channel, forget_channel, close_data_channel,
}
use kestara_webrtc.Registry.Peers.{forget_peer, close_peer, close_entry}
use kestara_webrtc.Registry.Access.{lock_registry, lock_peer, get_peer, get_channel, push_event}
use kestara_webrtc.Registry.Runs.{Alone}
use kestara_webrtc.Registry.Invariant.Defs.{WellFormed, HasRoom, Rely, Later-refl}
use kestara_webrtc.Registry.Closing.{Spares, close_peer_forgets, close_peer_once}
use kestara_webrtc.Registry.Shutdown.{
  Closing, waiting, closing, closings, JoinSet, spawned_by, Steps, stays, steps, locks, closes,
  calls_left, tally, any_call, close_calls, shutdown_all, shutdown_all_closes,
}
use kestara_webrtc.Registry.Orphans.{orphaned_channel}
use kestara_webrtc.Runtime.Command
use kestara_webrtc.Runtime.Execute.{execute, dispatch}
use kestara_webrtc.Runtime.Certificate.{rotate_certificate}
use kestara_webrtc.Runtime.Rotation.{Stored, IsChosen, rotate_all_or_nothing}
use kestara_webrtc.Runtime.Forward.{dispatch-WellFormed}
use kestara_webrtc.Wire.Event.{encode_event, decode_event}
use kestara_webrtc.Wire.Event.RoundTrip.{clipped, decode_event-encode_event}
use kestara_webrtc.Events.Queue.{polls, reported, polls_all}

abbrev pub engine : Engine
engine = record {
  interfere = λ s. s;
  expired = λ calls. false;
  built = λ calls. good 30;
  described = λ calls. good (codes "v=0");
  finished = λ calls. good tt;
  opened = λ calls. good 31;
  channel_id = λ channel. 5;
  try_sent = λ calls. sent;
  outstanding = λ calls. good 12;
  text_of = λ calls. good (codes "chat");
  flag_of = λ calls. good true;
  limit_of = λ calls. good none;
  state_of = λ calls. good open_state;
  stats_of = λ calls. record { peer_connection = none; transport = none; entries = [] };
  clock = λ calls. good 0;
  parse_ip = λ text. some (v4 text);
  key_pair = λ calls. good (codes "key");
  from_key_pair = λ key. good (codes "made");
  from_pem = λ pem. good pem;
  fingerprints = λ certificate. codes "sha-256" ∷ [];
}

abbrev pub alice : PeerEntry
alice = record { peer = 10; receive_queue_capacity = 4 }

abbrev pub bob : PeerEntry
bob = record { peer = 11; receive_queue_capacity = 8 }

abbrev pub chat : ChannelEntry
chat = record { channel = 20; peer_handle = 1 }

abbrev pub sample : RuntimeState
sample = record {
  peers = (1, alice) ∷ (3, bob) ∷ [];
  channels = (2, chat) ∷ [];
  poisoned = false;
  events = [];
  next_handle = 4;
  certificate = codes "old";
  certificate_poisoned = false;
  socket_mux = none;
  issued = 3;
  trace = [];
  spawned = [];
}

pub engine-Alone : Alone engine
engine-Alone = record { still = λ s. refl; in_time = λ calls. refl }

pub engine-Rely : (o : ℕ) → Rely o engine
engine-Rely o = record { later = λ s. Later-refl s }

sample-WellFormed : WellFormed sample
unfolding Map.get
sample-WellFormed = record {
  counter = refl;
  peers_below = (omega arith, (omega arith, tt));
  channels_below = (omega arith, tt);
  peers_distinct = (refl, (refl, tt));
  channels_distinct = (refl, tt);
}

abbrev pub send_hello : Command.Command
send_hello = Command.send_text 7 1000 2 (codes "hello")

room_after_send : HasRoom (dispatch engine send_hello sample)
unfolding dispatch execute push_event ◌>>=◌ send_text get_channel lock_registry check_lock ok_or
    Map.get get_peer lock_peer await or_failed
room_after_send = omega arith

dispatch-WellFormed_example : WellFormed (dispatch engine send_hello sample)
dispatch-WellFormed_example =
    dispatch-WellFormed engine send_hello sample (engine-Rely 0) sample-WellFormed room_after_send

engine-Spares : (h : ℕ) → Spares h engine
engine-Spares h = record { spares = λ s g. g }

close_peer_forgets_example :
    (Map.get 1 (close_peer engine 1 sample).1.peers ≡ none)
    × ((c : ℕ) (entry : ChannelEntry)
        → Map.get c (close_peer engine 1 sample).1.channels ≡ some entry
        → entry.peer_handle ≢ 1)
close_peer_forgets_example = close_peer_forgets engine 1 sample (engine-Spares 1) refl

close_peer_once_example :
    let calls = Call.close_peer 10 ∷ lock_operations 1 ∷ [] in
    (close_peer engine 1 sample
      ≡ or_failed closing_peer (good tt) (record (forget_peer 1 sample) { trace = calls }))
    × (close_peer engine 1 (record (forget_peer 1 sample) { trace = calls })
        ≡ (done tt, record (forget_peer 1 (forget_peer 1 sample)) { trace = calls }))
unfolding Map.get
close_peer_once_example = close_peer_once engine 1 alice sample engine-Alone refl refl

-- The peers are locked in turn, and closed in the other order.
abbrev all_joined : JoinSet
all_joined = record {
  tasks = [];
  trace = Call.close_peer 10 ∷ Call.close_peer 11 ∷ lock_operations 3 ∷ lock_operations 1 ∷ [];
}

joins : Steps 4 (spawned_by sample) all_joined
joins =
    steps
      (steps
        (steps (steps stays (locks [] (waiting 3 bob ∷ []) 1 alice refl))
          (locks (closing 1 alice ∷ []) [] 3 bob refl))
        (closes (closing 1 alice ∷ []) [] 3 bob refl))
      (closes [] [] 1 alice refl)

shutdown_all_closes_example :
    (shutdown_all sample
      ≡ (done (closings sample.peers), record sample { peers = []; channels = [] }))
    × ((p : Call → Bool)
        → tally p all_joined.trace + tally p (calls_left [])
          ≡ tally p [] + tally p (close_calls sample.peers))
    × (4 + tally any_call (calls_left []) ≡ 4)
shutdown_all_closes_example = shutdown_all_closes sample 4 all_joined refl joins

rotate_all_or_nothing_example :
    Stored engine
      (IsChosen engine (some (codes "new")) [])
      (codes "old")
      (rotate_certificate engine (some (codes "new")) sample)
rotate_all_or_nothing_example = rotate_all_or_nothing engine (some (codes "new")) sample

abbrev pub info : ChannelInfo
info = record {
  label = codes "chat";
  protocol = [];
  ordered = true;
  negotiated = false;
  max_packet_life_time = none;
  max_retransmits = some 3;
  is_open_now = true;
}

orphaned_channel_example :
    let t = (install_channel engine 9 31 true 4 info sample).1 in
    ((install_channel engine 9 31 true 4 info sample).0 ≡ fails (unknown_peer 9))
    × (Map.get 4 t.channels ≡ some (record { channel = 31; peer_handle = 9 }))
    × (t.spawned ≡ [])
    × (close_data_channel engine 4 t ≡ (fails (unknown_peer 9), forget_channel 4 t))
unfolding Map.get
orphaned_channel_example = orphaned_channel engine 9 31 true 4 info sample refl refl

abbrev greeting : NativeEvent
greeting = record {
  kind = 10;
  peer_handle = 1;
  channel_handle = 2;
  operation_handle = 0;
  text = some (codes "hi");
  secondary_text = none;
  number = negsuc 0;
  payload = some [];
  delivery_permit = some 2;
}

decode_event-encode_event_example :
    decode_event (encode_event greeting)
    ≡ some (record {
      kind = pos 10;
      peer_handle = 1;
      channel_handle = 2;
      operation_handle = 0;
      number = negsuc 0;
      text = clipped (some (codes "hi"));
      secondary_text = none;
      payload = clipped (some []);
    })
decode_event-encode_event_example = decode_event-encode_event greeting (record {
  kind = omega arith;
  peer_handle = omega arith;
  channel_handle = omega arith;
  operation_handle = omega arith;
  number = omega arith;
})

polls_all_example : polls 1 (greeting ∷ []) ≡ (reported (greeting ∷ []), [])
polls_all_example = polls_all (greeting ∷ [])
