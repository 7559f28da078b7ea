-- ===== src/Registry/Delivery/Order.antt =====
-- The events of one channel reach the client of native/src/registry.rs in order.
use kestara_webrtc.Base.{ℕ, true, none, List, [], ◌∷◌, ◌++◌, ◌≡◌, refl, arith, map}
use kestara_webrtc.Events.{NativeEvent}
use kestara_webrtc.Registry.Delivery.{
  Link, ChannelEvent, on_channel_event, release_buffer, poll_jvm, poll_native, push, message_event,
  sent_event, take_event,
}
use kestara_webrtc.Registry.Delivery.Steps.{events_of, Step, Runs, arrive}
use kestara_webrtc.Registry.Delivery.Account.{
  awaited, on_the_way, Ordered, jvm_event-Took, native_event-Took, pushed, stopped, same_account,
  take_event-Ordered, granted, ended, dropped, snoc,
}

module _ (peer h : ℕ) where
  came :
      {before : List NativeEvent} {l : Link}
      → Ordered peer h before l
      → (e : ChannelEvent) → l.running ≡ true
      → l.waiting ≡ none
      → Ordered peer h before (on_channel_event peer h e (arrive e l))
  unfolding on_channel_event sent_event push
  came {before} {l} o (ChannelEvent.on_message m) r i = record {
    lost = message_event peer h m ∷ [];
    all = snoc peer h before l (ChannelEvent.on_message m) (ground (arith, o.all, o.running r));
    running = λ _. refl;
  }
  came o ChannelEvent.on_close r i = stopped peer h (pushed peer h o ChannelEvent.on_close r i) i
  came o ChannelEvent.on_open r i = pushed peer h o ChannelEvent.on_open r i
  came o ChannelEvent.on_error r i = pushed peer h o ChannelEvent.on_error r i
  came o ChannelEvent.on_closing r i = pushed peer h o ChannelEvent.on_closing r i
  came o ChannelEvent.on_buffered_amount_low r i =
      pushed peer h o ChannelEvent.on_buffered_amount_low r i
  came o ChannelEvent.on_buffered_amount_high r i =
      pushed peer h o ChannelEvent.on_buffered_amount_high r i

  Step-Ordered :
      {before : List NativeEvent} {l n : Link}
      → Step peer h l n
      → Ordered peer h before l
      → Ordered peer h before n
  Step-Ordered (Step.event_comes e r i) o = came o e r i
  Step-Ordered (Step.permit_comes m left r i a) o = granted peer h o m left r i
  Step-Ordered (Step.events_end r i) o = stopped peer h o i
  Step-Ordered (Step.runtime_gone r i) o = ended peer h o
  Step-Ordered (Step.aborted r) o = dropped peer h o
  Step-Ordered {l = l} Step.jvm_polls o =
      unfold poll_jvm take_event in take_event-Ordered peer h o _ (jvm_event-Took peer h _ _)
  Step-Ordered {l = l} Step.native_polls o =
      unfold poll_native take_event in take_event-Ordered peer h o _ (native_event-Took peer h _ _)
  Step-Ordered (Step.buffer_released b) o =
      unfold release_buffer in same_account peer h o _ refl refl refl refl
  Step-Ordered {l = l} (Step.others_act t q e) o =
      same_account peer h o _ (rw e refl) refl refl refl

  Runs-Ordered :
      {before : List NativeEvent} {l n : Link}
      → Runs peer h l n
      → Ordered peer h before l
      → Ordered peer h before n
  Runs-Ordered Runs.still o = o
  Runs-Ordered (Runs.further runs step) o = Step-Ordered step (Runs-Ordered runs o)

-- From the start of the polling task on, whatever steps the task, the client and the other tasks take: the
-- channel's events that the client has polled, then those that are in the queue, are those from before the
-- start and then one for each event that the library sent, in order and none twice. The completions of
-- operations on the channel, which other tasks send, are not counted. Only a suffix is missing, and while
-- the task runs that is at most the message that waits for a permit.
pub deliveries_ordered :
    (peer h : ℕ) {l n : Link}
    → Runs peer h l n
    → l.arrived ≡ []
    → l.waiting ≡ none
    → (lost : List NativeEvent) × ((events_of h n.received ++ events_of h n.state.events) ++ lost
        ≡ (events_of h l.received ++ events_of h l.state.events)
          ++ map (sent_event peer h) n.arrived)
      × (n.running ≡ true → lost ≡ awaited peer h n.waiting)
deliveries_ordered peer h {l} {n} runs a i =
    let o = Runs-Ordered peer h runs (begin) in (o.lost, o.all, o.running)
  where
    begin : Ordered peer h (on_the_way peer h l) l
    begin = record { lost = []; all = rw a refl; running = λ r. rw i refl }
