-- ===== src/Registry/Delivery/Account.antt =====
-- What the client of one channel has been sent and will be, and how the single steps of the polling
-- task of native/src/registry.rs change it.
use kestara_webrtc.Base.{
  Bool-cases, inl, inr, ℕ, true, false, Option, none, some, List, [], ◌∷◌, ◌++◌, ◌==◌, ◌≡◌, refl,
  ◌∙◌, sym, ap, arith, ==_self, map,
}
use mathlib.Core.List.{append-nil, append_assoc, map-append}
use kestara_webrtc.Events.{NativeEvent, channel_event, poll}
use kestara_webrtc.Events.Kind
use kestara_webrtc.Registry.Access.{push_event}
use kestara_webrtc.Registry.Channels.{forget_channel}
use kestara_webrtc.Registry.Delivery.{
  Link, Message, ChannelEvent, deliver, stop, register_buffer, push, message_event, sent_event,
  keep_permit, jvm_event, native_event, take_event, receive,
}
use kestara_webrtc.Registry.Delivery.Steps.{events_of, concerns, arrive}

events_of-append :
    (h : ℕ) (xs ys : List NativeEvent) → events_of h (xs ++ ys) ≡ events_of h xs ++ events_of h ys
unfolding events_of
events_of-append h [] ys = refl
events_of-append h (x ∷ xs) ys = ground (arith, events_of-append h xs ys)

module _ (peer h : ℕ) where
  sent_event-concerns : (e : ChannelEvent) → concerns h (sent_event peer h e) ≡ true
  unfolding sent_event channel_event message_event
  sent_event-concerns (ChannelEvent.on_message m) = ground (arith, ==_self h)
  sent_event-concerns ChannelEvent.on_open = ground (arith, ==_self h)
  sent_event-concerns ChannelEvent.on_error = ground (arith, ==_self h)
  sent_event-concerns ChannelEvent.on_closing = ground (arith, ==_self h)
  sent_event-concerns ChannelEvent.on_close = ground (arith, ==_self h)
  sent_event-concerns ChannelEvent.on_buffered_amount_low = ground (arith, ==_self h)
  sent_event-concerns ChannelEvent.on_buffered_amount_high = ground (arith, ==_self h)

  events_of_sent :
      (e : ChannelEvent) → events_of h (sent_event peer h e ∷ []) ≡ sent_event peer h e ∷ []
  unfolding events_of
  events_of_sent e = ground (arith, sent_event-concerns e)

  -- The event of a message that waits for its permit.
  abbrev pub awaited : Option Message → List NativeEvent
  awaited none = []
  awaited (some m) = message_event peer h m ∷ []

  -- The events of the channel that the client has polled, then those in the queue.
  abbrev pub on_the_way : Link → List NativeEvent
  on_the_way l = events_of h l.received ++ events_of h l.state.events

  -- The client's view of the channel: what it has or will be sent, then what is lost, is `before` and
  -- then every event of the library in order. While the task runs only the message that waits is missing.
  pub record Ordered (before : List NativeEvent) (l : Link) : Type 0 where
    pub lost : List NativeEvent
    pub all : on_the_way l ++ lost ≡ before ++ map (sent_event peer h) l.arrived
    pub running : l.running ≡ true → lost ≡ awaited l.waiting

  pub on_the_way-push :
      (l : Link) (e : ChannelEvent) (arrived : List ChannelEvent)
      → on_the_way (push (sent_event peer h e) (record l { arrived = arrived }))
        ≡ on_the_way l ++ (sent_event peer h e ∷ [])
  unfolding push push_event
  on_the_way-push l e arrived =
      rw (events_of-append h l.state.events (sent_event peer h e ∷ []), events_of_sent e)
        (sym (append_assoc (events_of h l.received) (events_of h l.state.events) _))

  -- One more event on both sides of the account.
  pub snoc :
      (before : List NativeEvent) (l : Link) (e : ChannelEvent)
      → on_the_way l ++ [] ≡ before ++ map (sent_event peer h) l.arrived
      → on_the_way l ++ (sent_event peer h e ∷ [])
        ≡ before ++ map (sent_event peer h) (l.arrived ++ (e ∷ []))
  snoc before l e p = rw map-append (
      ap (λ zs. zs ++ (sent_event peer h e ∷ [])) (sym (append-nil (on_the_way l)) ∙ p)
      ∙ append_assoc before _ _)

  pub given : Option NativeEvent → List NativeEvent
  given none = []
  given (some event) = event ∷ []

  -- What is polled goes from the queue to the client.
  events_of-poll :
      (got queue : List NativeEvent)
      → events_of h (got ++ given (poll queue).0) ++ events_of h (poll queue).1
        ≡ events_of h got ++ events_of h queue
  unfolding poll given events_of
  events_of-poll got [] = ap (λ g. events_of h g ++ []) (append-nil got)
  events_of-poll got (event ∷ rest) = elim (Bool-cases (event.kind == Kind.wake)) [
    | inl e ↦ ground (arith, append-nil got)
    | inr e ↦ rw (e, events_of-append h got (event ∷ []), append_assoc) (ground arith)
  ]

  -- The task and its account, as they are when the client has been given `event`.
  pub record Took (event : Option NativeEvent) (l n : Link) : Type 0 where
    pub events : n.state.events ≡ l.state.events
    pub received : n.received ≡ l.received ++ given event
    pub arrived : n.arrived ≡ l.arrived
    pub running : n.running ≡ l.running
    pub waiting : n.waiting ≡ l.waiting

  keep_permit-Took :
      (event : NativeEvent) (permit : Option ℕ) (l : Link)
      → Took (some event) l (keep_permit h event permit (receive event l))
  unfolding keep_permit register_buffer receive given
  keep_permit-Took event none l = record {
    events = refl;
    received = refl;
    arrived = refl;
    running = refl;
    waiting = refl;
  }
  keep_permit-Took event (some c) l = record {
    events = refl;
    received = refl;
    arrived = refl;
    running = refl;
    waiting = refl;
  }

  pub jvm_event-Took : (event : Option NativeEvent) (l : Link) → Took event l (jvm_event h event l)
  unfolding jvm_event given
  jvm_event-Took none l = record {
    events = refl;
    received = sym (append-nil l.received);
    arrived = refl;
    running = refl;
    waiting = refl;
  }
  jvm_event-Took (some event) l = keep_permit-Took event event.delivery_permit l

  pub native_event-Took :
      (event : Option NativeEvent) (l : Link) → Took event l (native_event h event l)
  unfolding native_event given receive
  native_event-Took none l = record {
    events = refl;
    received = sym (append-nil l.received);
    arrived = refl;
    running = refl;
    waiting = refl;
  }
  native_event-Took (some event) l = record {
    events = refl;
    received = refl;
    arrived = refl;
    running = refl;
    waiting = refl;
  }

  module _ {before : List NativeEvent} {l : Link} (o : Ordered before l) where
    -- The same account in a state that differs in other ways.
    pub same_account :
        (n : Link)
        → on_the_way n ≡ on_the_way l
        → n.arrived ≡ l.arrived
        → n.running ≡ l.running
        → n.waiting ≡ l.waiting
        → Ordered before n
    same_account n way arrived running waiting = record {
      lost = o.lost;
      all = rw (way, arrived) o.all;
      running = λ r. rw waiting (o.running (sym running ∙ r));
    }

    pub take_event-Ordered :
        (n : Link) → (let (event, l') = take_event l in Took event l' n) → Ordered before n
    unfolding take_event
    take_event-Ordered n t =
        same_account n (rw (t.received, t.events) (events_of-poll l.received l.state.events))
          t.arrived t.running t.waiting

    pub pushed :
        (e : ChannelEvent)
        → l.running ≡ true
        → l.waiting ≡ none
        → Ordered before (push (sent_event peer h e) (arrive e l))
    unfolding push
    pushed e r i = record {
      lost = [];
      all =
          append-nil _
          ∙ on_the_way-push l e (l.arrived ++ (e ∷ []))
          ∙ snoc before l e (ground (arith, o.all, o.running r));
      running = λ _. rw i refl;
    }

    pub stopped : l.waiting ≡ none → Ordered before (stop h l)
    unfolding stop forget_channel
    stopped i = record {
      lost = o.lost;
      all = ground (arith, o.all);
      running = λ r. absurd (ground (arith, r));
    }

    pub granted :
        (m : Message) (left : ℕ)
        → l.running ≡ true
        → l.waiting ≡ some m
        → Ordered before (deliver peer h m left l)
    unfolding deliver push push_event sent_event
    granted m left r i = record {
      lost = [];
      all =
          append-nil _
          ∙ on_the_way-push l (ChannelEvent.on_message m) l.arrived
          ∙ ground (arith, o.all, o.running r);
      running = λ _. refl;
    }

    pub ended : Ordered before (record l { running = false })
    ended = record { lost = o.lost; all = o.all; running = λ r. absurd (ground (arith, r)) }

    pub dropped : Ordered before (record l { running = false; waiting = none })
    dropped = record { lost = o.lost; all = o.all; running = λ r. absurd (ground (arith, r)) }
