-- ===== src/Examples/Delivery.antt =====
-- The theorems on the delivery of a channel's events (native/src/registry.rs) at work: one message is
-- sent under the only permit, and the JVM polls it.
use kestara_webrtc.Base.{◌+◌, ◌≡◌, ◌≤◌, refl, true, none, List, [], ◌++◌, codes, map}
use kestara_webrtc.Events.{NativeEvent}
use kestara_webrtc.Registry.Delivery.{
  Link, Message, ChannelEvent, on_channel_event, deliver, poll_jvm, sent_event,
}
use kestara_webrtc.Registry.Delivery.Steps.{queued, held, events_of, messages, arrive, Step, Runs}
use kestara_webrtc.Registry.Delivery.Permits.{deliveries_bounded}
use kestara_webrtc.Registry.Delivery.Account.{awaited}
use kestara_webrtc.Registry.Delivery.Order.{deliveries_ordered}
use kestara_webrtc.Examples.{sample}

abbrev fresh : Link
fresh = record {
  state = sample;
  buffers = [];
  next_buffer = 1;
  available = 1;
  waiting = none;
  running = true;
  arrived = [];
  received = [];
}

abbrev hello : Message
hello = record { is_string = true; bytes = codes "hello" }

abbrev waits : Link
waits =
    on_channel_event 1 2 (ChannelEvent.on_message hello)
      (arrive (ChannelEvent.on_message hello) fresh)

abbrev polled : Link
polled = poll_jvm 2 (deliver 1 2 hello 0 waits)

one_message : Runs 1 2 fresh polled
unfolding on_channel_event
one_message =
    Runs.further
      (Runs.further
        (Runs.further Runs.still (Step.event_comes (ChannelEvent.on_message hello) refl refl))
        (Step.permit_comes hello 0 refl refl refl))
      Step.jvm_polls

deliveries_bounded_example :
    (polled.available + queued 2 polled.state.events + held 2 polled.buffers ≡ 1)
    × (queued 2 polled.state.events + held 2 polled.buffers ≤ 1)
    × (messages 2 polled.state.events + held 2 polled.buffers ≤ 1)
unfolding queued held
deliveries_bounded_example = deliveries_bounded 1 2 1 one_message refl refl refl refl tt

deliveries_ordered_example :
    (lost : List NativeEvent) × ((events_of 2 polled.received ++ events_of 2 polled.state.events)
        ++ lost
      ≡ (events_of 2 [] ++ events_of 2 []) ++ map (sent_event 1 2) polled.arrived)
    × (polled.running ≡ true → lost ≡ awaited 1 2 polled.waiting)
deliveries_ordered_example = deliveries_ordered 1 2 one_message refl refl
