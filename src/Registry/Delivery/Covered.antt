-- ===== src/Registry/Delivery/Covered.antt =====
-- Every message in the queue of native/src/events.rs carries a permit of its channel.
use kestara_webrtc.Base.{
  ℕ, ◌≤◌, ◌≡◌, refl, sym, false, List, [], ◌∷◌, ◌++◌, ◌&&◌, arith, Bool-cases, inl, inr,
}
use mathlib.Core.Path.{transport}
use kestara_webrtc.Events.{NativeEvent, poll}
use kestara_webrtc.Registry.Delivery.Steps.{
  queued, carried, concerns, is_message, one_message, messages, events_of,
}

module _ (h : ℕ) where
  abbrev pub Covered : List NativeEvent → Type 0
  Covered [] = Unit
  Covered (event ∷ rest) = (one_message h event ≤ carried h event) × Covered rest

  pub Covered-append :
      (xs : List NativeEvent) (event : NativeEvent)
      → Covered xs
      → one_message h event ≤ carried h event
      → Covered (xs ++ (event ∷ []))
  Covered-append [] event c e = (e, tt)
  Covered-append (x ∷ xs) event c e = (c.0, Covered-append xs event c.1 e)

  pub poll-Covered : (queue : List NativeEvent) → Covered queue → Covered (poll queue).1
  unfolding poll
  poll-Covered [] c = tt
  poll-Covered (event ∷ rest) c = c.1

  -- What does not concern the channel is no message of it.
  no_message : (event : NativeEvent) → concerns h event ≡ false → one_message h event ≡ 0
  no_message event e = rw e refl

  to_events_of : (events : List NativeEvent) → Covered events → Covered (events_of h events)
  unfolding events_of
  to_events_of [] c = tt
  to_events_of (event ∷ rest) c = elim (Bool-cases (concerns h event)) [
    | inl e ↦ rw e (c.0, to_events_of rest c.1)
    | inr e ↦ rw e (to_events_of rest c.1)
  ]

  from_first :
      (event : NativeEvent) (rest : List NativeEvent)
      → (Covered (events_of h rest) → Covered rest)
      → Covered (events_of h (event ∷ rest))
      → Covered (event ∷ rest)
  unfolding events_of
  from_first event rest more c = elim (Bool-cases (concerns h event)) [
    | inl e ↦ let c' : Covered (event ∷ events_of h rest) = rw e at c in (c'.0, more c'.1)
    | inr e ↦
        let c' : Covered (events_of h rest) = rw e at c in
        (omega (arith, no_message event e), more c')
  ]

  from_events_of : (events : List NativeEvent) → Covered (events_of h events) → Covered events
  from_events_of [] c = tt
  from_events_of (event ∷ rest) c = from_first event rest (from_events_of rest) c

  pub one_message_le : (event : NativeEvent) → one_message h event ≤ 1
  one_message_le event = elim (Bool-cases (concerns h event && is_message event)) [
    | inl e ↦ rw e (omega arith)
    | inr e ↦ rw e (omega arith)
  ]

  pub same_events-Covered :
      (xs ys : List NativeEvent) → events_of h ys ≡ events_of h xs → Covered xs → Covered ys
  same_events-Covered xs ys e c =
      from_events_of ys (transport (λ i. Covered (sym e i)) (to_events_of xs c))

  pub messages-queued :
      (events : List NativeEvent) → Covered events → messages h events ≤ queued h events
  unfolding queued
  messages-queued [] c = omega arith
  messages-queued (event ∷ rest) c = omega (arith, c.0, messages-queued rest c.1)

  pub no_messages-Covered : (events : List NativeEvent) → messages h events ≡ 0 → Covered events
  no_messages-Covered [] e = tt
  no_messages-Covered (event ∷ rest) e =
      (omega (arith, e), no_messages-Covered rest (omega (arith, e)))
