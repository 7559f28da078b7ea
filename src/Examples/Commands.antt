-- ===== src/Examples/Commands.antt =====
-- The theorems on the commands of native/src/runtime.rs at work.
use kestara_webrtc.Base.{◌+◌, ◌≡◌, refl, [], ◌∷◌, ◌++◌, codes}
use kestara_webrtc.Errors.{unknown_peer, unknown_channel}
use kestara_webrtc.Events.{completions}
use kestara_webrtc.Map
use kestara_webrtc.Registry.Task.{fails}
use kestara_webrtc.Registry.Callbacks.{Callback, on_callback}
use kestara_webrtc.Registry.Channels.{created_event}
use kestara_webrtc.Registry.Invariant.Defs.{Later}
use kestara_webrtc.Registry.Invariant.Callbacks.{on_callback-Later}
use kestara_webrtc.Runtime.Command.{Command, operation_handle}
use kestara_webrtc.Runtime.Execute.{execute, dispatch}
use kestara_webrtc.Runtime.Completion.{dispatch_completes}
use kestara_webrtc.Runtime.Targets.{unknown_peer_refused, unknown_channel_refused}
use kestara_webrtc.Runtime.Calls.{
  peer_calls, channel_calls, peer_command_calls, channel_command_calls,
}
use kestara_webrtc.Wire.Channel.{decode_channel, decode_channel-created_event}
use kestara_webrtc.Base.{none, true, false}
use kestara_webrtc.Runtime.Table.{
  Controller, Runtimes, returns_well, submit, poll_event, release, request, unknown,
  request_isolated, released_is_unknown,
}
use kestara_webrtc.Base.{some, arith}
use kestara_webrtc.Examples.{
  engine, engine-Alone, engine-Rely, alice, chat, sample, info, send_hello,
}

abbrev pub restart_first : Command
restart_first = Command.restart_ice 7 1000 1

dispatch_completes_example :
    completions 7 (dispatch engine send_hello sample).events ≡ completions 7 sample.events + 1
unfolding operation_handle
dispatch_completes_example = dispatch_completes engine 7 send_hello sample (engine-Rely 7)

unknown_peer_refused_example :
    execute engine (Command.restart_ice 7 1000 9) sample ≡ (fails (unknown_peer 9), sample)
unfolding Map.get
unknown_peer_refused_example =
    unknown_peer_refused engine (Command.restart_ice 7 1000 9) 9 sample refl refl refl

unknown_channel_refused_example :
    execute engine (Command.send_text 7 1000 3 (codes "hi")) sample
    ≡ (fails (unknown_channel 3), sample)
unfolding Map.get
unknown_channel_refused_example =
    unknown_channel_refused engine (Command.send_text 7 1000 3 (codes "hi")) 3 sample refl refl refl

peer_command_calls_example :
    (execute engine restart_first sample).1
    ≡ record sample { trace = peer_calls restart_first alice ++ [] }
unfolding Map.get
peer_command_calls_example =
    peer_command_calls engine restart_first 1 alice sample engine-Alone refl refl refl

channel_command_calls_example :
    (execute engine send_hello sample).1
    ≡ record sample { trace = channel_calls send_hello chat ++ [] }
unfolding Map.get
channel_command_calls_example =
    channel_command_calls engine send_hello 2 chat alice sample engine-Alone refl refl refl refl

on_callback-Later_example :
    Later 7 sample (on_callback 1 Callback.on_negotiation_needed sample)
    × ((on_callback 1 Callback.on_negotiation_needed sample).peers ≡ sample.peers)
    × ((on_callback 1 Callback.on_negotiation_needed sample).channels ≡ sample.channels)
on_callback-Later_example = on_callback-Later 7 1 Callback.on_negotiation_needed sample

decode_channel-created_event_example : decode_channel (created_event 1 4 5 info) ≡ some (info, 5)
decode_channel-created_event_example = decode_channel-created_event 1 4 5 info tt (omega arith)

abbrev pub idle : Controller
idle = record {
  commands = [];
  accepting = true;
  events = [];
  certificate = [];
  certificate_poisoned = false;
  buffers = [];
  buffers_poisoned = false;
  thread = returns_well;
}

abbrev pub two_runtimes : Runtimes
two_runtimes = record {
  runtimes = (1, idle) ∷ (2, idle) ∷ [];
  poisoned = false;
  next_runtime = 3;
  next_buffer = 1;
}

request_isolated_example :
    Map.get 2 (request 1 (submit restart_first) two_runtimes).1.runtimes
    ≡ Map.get 2 two_runtimes.runtimes
request_isolated_example = request_isolated 1 2 (submit restart_first) two_runtimes refl

released_is_unknown_example :
    let t = (request 1 release two_runtimes).1 in
    ((request 1 poll_event t).0 ≡ unknown 1 poll_event)
    × (Map.get 1 (request 1 poll_event t).1.runtimes ≡ none)
released_is_unknown_example = released_is_unknown 1 poll_event two_runtimes refl
