-- ===== src/Registry/Delivery/Permits.antt =====
-- The delivery permits of one channel are never lost and never made: back pressure in
-- native/src/registry.rs.
use kestara_webrtc.Base.{
  ℕ, ◌+◌, ◌≤◌, if◌then◌else◌, Bool, true, false, Option, none, some, List, [], ◌∷◌, ◌++◌, ◌≡◌, refl,
  ◌∙◌, arith, ==_self,
}
use kestara_webrtc.Events.{NativeEvent, channel_event, poll}
use kestara_webrtc.Map.{Map, get, insert, remove, Distinct, remove-Distinct, insert-Distinct}
use kestara_webrtc.Registry.State.{RuntimeState}
use kestara_webrtc.Registry.Access.{push_event}
use kestara_webrtc.Registry.Channels.{forget_channel}
use kestara_webrtc.Registry.Delivery.{
  Link, Message, ChannelEvent, Buffer, permit_of, buffer_permit, on_channel_event, deliver, stop,
  release_buffer, register_buffer, poll_jvm, poll_native, push, message_event, sent_event,
  keep_permit, jvm_event, native_event, take_event, receive,
}
use kestara_webrtc.Registry.Delivery.Steps.{
  queued, held, carried, Step, Runs, arrive, one_message, messages,
}
use kestara_webrtc.Registry.Delivery.Covered.{
  Covered, one_message_le, Covered-append, poll-Covered, same_events-Covered, messages-queued,
  no_messages-Covered,
}
use kestara_webrtc.Registry.Delivery.Account.{jvm_event-Took, native_event-Took}

queued-append : (h : ℕ) (xs ys : List NativeEvent) → queued h (xs ++ ys) ≡ queued h xs + queued h ys
unfolding queued
queued-append h [] ys = omega arith
queued-append h (x ∷ xs) ys = omega (arith, queued-append h xs ys)

held-remove :
    (h k : ℕ) (m : Map Buffer)
    → Distinct m
    → held h (remove k m) + buffer_permit h (get k m) ≡ held h m
unfolding held get remove
held-remove h k [] w = refl
held-remove h k ((j, b) ∷ m) w = ground (arith, held-remove h k m w.1)

held-insert :
    (h k : ℕ) (b : Buffer) (m : Map Buffer)
    → Distinct m
    → held h (insert k b m) + buffer_permit h (get k m) ≡ permit_of h b.delivery_permit + held h m
unfolding held insert
held-insert h k b m w = omega (arith, held-remove h k m w)

-- The permits of channel `h`, wherever they are: free, in the queue, or in a delivery buffer.
abbrev pub permits : ℕ → Link → ℕ
permits h l = l.available + queued h l.state.events + held h l.buffers

-- No handle of a buffer stands twice, and every message in the queue carries a permit.
abbrev pub InOrder : ℕ → Link → Type 0
InOrder h l = Distinct l.buffers × Covered h l.state.events

-- No permit is lost or made.
pub record Keeps (h : ℕ) (l n : Link) : Type 0 where
  pub same : permits h n ≡ permits h l
  pub distinct : Distinct n.buffers
  pub covered : Covered h n.state.events

module _ (h : ℕ) where
  -- A change of the state that leaves the permits of its queue.
  Keeps-state :
      (l : Link) (t : RuntimeState) (running : Bool) (waiting : Option Message)
      (arrived : List ChannelEvent)
      → Distinct l.buffers
      → queued h t.events ≡ queued h l.state.events
      → Covered h t.events
      → Keeps h l (record l { state = t; running = running; waiting = waiting; arrived = arrived })
  Keeps-state l t running waiting arrived w e c = record {
    same = omega (arith, e);
    distinct = w;
    covered = c;
  }

  push-Keeps :
      (l : Link) (event : NativeEvent) (arrived : List ChannelEvent)
      → InOrder h l
      → carried h event ≡ 0
      → one_message h event ≡ 0
      → Keeps h l (push event (record l { arrived = arrived }))
  unfolding push push_event queued
  push-Keeps l event arrived w e m = record {
    same = omega (arith, queued-append h l.state.events (event ∷ []), e);
    distinct = w.0;
    covered = Covered-append h l.state.events event w.1 (omega (arith, m));
  }

  stop-Keeps : (l : Link) → InOrder h l → Keeps h l (stop h l)
  unfolding stop forget_channel
  stop-Keeps l w = record { same = ground arith; distinct = w.0; covered = still l.state.poisoned }
    where
      still :
          (b : Bool)
          → Covered h
              (record l {
                state = if b then l.state else forget_channel h l.state;
                running = false;
              }).state.events
      still true = w.1
      still false = w.1

  on_channel_event-Keeps :
      (peer : ℕ) (e : ChannelEvent) (l : Link)
      → InOrder h l
      → Keeps h l (on_channel_event peer h e (arrive e l))
  unfolding on_channel_event sent_event channel_event
  on_channel_event-Keeps peer ChannelEvent.on_open l w = push-Keeps l _ _ w refl (ground arith)
  on_channel_event-Keeps peer ChannelEvent.on_error l w = push-Keeps l _ _ w refl (ground arith)
  on_channel_event-Keeps peer ChannelEvent.on_closing l w = push-Keeps l _ _ w refl (ground arith)
  on_channel_event-Keeps peer ChannelEvent.on_close l w =
      let a =
        push-Keeps l (sent_event peer h ChannelEvent.on_close)
          (l.arrived ++ (ChannelEvent.on_close ∷ [])) w refl (ground arith) in
      let b =
        stop-Keeps (push (sent_event peer h ChannelEvent.on_close) (arrive ChannelEvent.on_close l))
          (a.distinct, a.covered) in
      record { same = b.same ∙ a.same; distinct = b.distinct; covered = b.covered }
  on_channel_event-Keeps peer (ChannelEvent.on_message m) l w = record {
    same = refl;
    distinct = w.0;
    covered = w.1;
  }
  on_channel_event-Keeps peer ChannelEvent.on_buffered_amount_low l w =
      push-Keeps l _ _ w refl (ground arith)
  on_channel_event-Keeps peer ChannelEvent.on_buffered_amount_high l w =
      push-Keeps l _ _ w refl (ground arith)

  carried-message_event : (peer : ℕ) (m : Message) → carried h (message_event peer h m) ≡ 1
  unfolding message_event channel_event
  carried-message_event peer m = ground (arith, ==_self h)

  deliver-Keeps :
      (peer : ℕ) (m : Message) (left : ℕ) (l : Link)
      → InOrder h l
      → l.available ≡ left + 1
      → Keeps h l (deliver peer h m left l)
  unfolding deliver push push_event queued
  deliver-Keeps peer m left l w e = record {
    same = omega (
      arith,
      queued-append h l.state.events (message_event peer h m ∷ []),
      carried-message_event peer m,
      e,
    );
    distinct = w.0;
    covered =
        Covered-append h l.state.events (message_event peer h m) w.1
          (omega (arith, carried-message_event peer m, one_message_le h (message_event peer h m)));
  }

  release_buffer-Keeps : (b : ℕ) (l : Link) → InOrder h l → Keeps h l (release_buffer h b l)
  unfolding release_buffer
  release_buffer-Keeps b l w = record {
    same = omega (arith, held-remove h b l.buffers w.0);
    distinct = remove-Distinct b l.buffers w.0;
    covered = w.1;
  }

  -- What is taken out of the queue is the permit of the event that `poll` returns.
  event_permit : Option NativeEvent → ℕ
  event_permit none = 0
  event_permit (some event) = permit_of h event.delivery_permit

  take_event-permits :
      (l : Link) → let (event, l') = take_event l in permits h l' + event_permit event ≡ permits h l
  unfolding take_event poll queued event_permit
  take_event-permits l = go l.state.events refl
    where
      go :
          (queue : List NativeEvent)
          → l.state.events ≡ queue
          → l.available + queued h (poll queue).1 + held h l.buffers + event_permit (poll queue).0
            ≡ permits h l
      go [] e = ground arith
      go (event ∷ rest) e = ground arith

  jvm_event-permits :
      (event : Option NativeEvent) (l : Link)
      → Distinct l.buffers
      → (permits h (jvm_event h event l) ≡ permits h l + event_permit event)
        × Distinct (jvm_event h event l).buffers
  unfolding jvm_event keep_permit register_buffer receive event_permit
  jvm_event-permits none l w = (omega arith, w)
  jvm_event-permits (some event) l w = go event.delivery_permit refl
    where
      go :
          (permit : Option ℕ)
          → event.delivery_permit ≡ permit
          → (permits h (keep_permit h event permit (receive event l))
              ≡ permits h l + permit_of h permit)
            × Distinct (keep_permit h event permit (receive event l)).buffers
      go none e = (omega arith, w)
      go (some c) e = (
        omega (arith, held-insert h l.next_buffer _ l.buffers w),
        insert-Distinct l.next_buffer _ l.buffers w,
      )

  native_event-permits :
      (event : Option NativeEvent) (l : Link)
      → Distinct l.buffers
      → (permits h (native_event h event l) ≡ permits h l + event_permit event)
        × Distinct (native_event h event l).buffers
  unfolding native_event receive event_permit
  native_event-permits none l w = (omega arith, w)
  native_event-permits (some event) l w = (omega arith, w)

  poll_jvm-Keeps : (l : Link) → InOrder h l → Keeps h l (poll_jvm h l)
  unfolding poll_jvm take_event
  poll_jvm-Keeps l w =
      let (event, l') = take_event l in
      let (total, distinct) = jvm_event-permits event l' w.0 in
      record {
        same = omega (arith, total, take_event-permits l);
        distinct = distinct;
        covered = rw (jvm_event-Took 0 h event l').events (poll-Covered h l.state.events w.1);
      }

  poll_native-Keeps : (l : Link) → InOrder h l → Keeps h l (poll_native h l)
  unfolding poll_native take_event
  poll_native-Keeps l w =
      let (event, l') = take_event l in
      let (total, distinct) = native_event-permits event l' w.0 in
      record {
        same = omega (arith, total, take_event-permits l);
        distinct = distinct;
        covered = rw (native_event-Took 0 h event l').events (poll-Covered h l.state.events w.1);
      }

  Step-Keeps : (peer : ℕ) {l n : Link} → Step peer h l n → InOrder h l → Keeps h l n
  Step-Keeps peer {l} (Step.event_comes e r i) w = on_channel_event-Keeps peer e l w
  Step-Keeps peer {l} (Step.permit_comes m left r i a) w = deliver-Keeps peer m left l w a
  Step-Keeps peer {l} (Step.events_end r i) w = stop-Keeps l w
  Step-Keeps peer {l} (Step.runtime_gone r i) w =
      Keeps-state l l.state false l.waiting l.arrived w.0 refl w.1
  Step-Keeps peer {l} (Step.aborted r) w = Keeps-state l l.state false none l.arrived w.0 refl w.1
  Step-Keeps peer {l} Step.jvm_polls w = poll_jvm-Keeps l w
  Step-Keeps peer {l} Step.native_polls w = poll_native-Keeps l w
  Step-Keeps peer {l} (Step.buffer_released b) w = release_buffer-Keeps b l w
  Step-Keeps peer {l} (Step.others_act t q e) w =
      Keeps-state l t l.running l.waiting l.arrived w.0 q
        (same_events-Covered h l.state.events t.events e w.1)

  Runs-Keeps : (peer : ℕ) {l n : Link} → Runs peer h l n → InOrder h l → Keeps h l n
  Runs-Keeps peer Runs.still w = record { same = refl; distinct = w.0; covered = w.1 }
  Runs-Keeps peer (Runs.further runs step) w =
      let a = Runs-Keeps peer runs w in
      let b = Step-Keeps peer step (a.distinct, a.covered) in
      record { same = b.same ∙ a.same; distinct = b.distinct; covered = b.covered }

-- From the start of the polling task, with `capacity` free permits, none of them in use, and no message of
-- the channel in the queue, whatever steps the task, the client and the other tasks take: the free permits,
-- those of events in the queue and those of buffers that the client holds are `capacity` in all. Every
-- message of the channel in the queue, text or binary, carries one. So at most `capacity` messages of the
-- channel are in the queue or in a buffer that holds a permit.
pub deliveries_bounded :
    (peer h capacity : ℕ) {l n : Link}
    → Runs peer h l n
    → l.available ≡ capacity
    → queued h l.state.events ≡ 0
    → messages h l.state.events ≡ 0
    → held h l.buffers ≡ 0
    → Distinct l.buffers
    → (n.available + queued h n.state.events + held h n.buffers ≡ capacity)
      × (queued h n.state.events + held h n.buffers ≤ capacity)
      × (messages h n.state.events + held h n.buffers ≤ capacity)
deliveries_bounded peer h capacity {l} {n} runs a q m b w =
    let keeps = Runs-Keeps h peer runs (w, no_messages-Covered h l.state.events m) in
    (
      omega (arith, keeps.same),
      omega (arith, keeps.same),
      omega (arith, keeps.same, messages-queued h n.state.events keeps.covered),
    )
