-- ===== src/Events/Queue.antt =====
-- The event queue of native/src/events.rs: what polling it returns, and what waking it does.
use kestara_webrtc.Base.{
  ℕ, zero, suc, ◌≡◌, refl, none, some, List, [], ◌∷◌, ◌++◌, length, ◌==◌, if◌then◌else◌, arith,
}
use kestara_webrtc.Events.{NativeEvent, poll}
use kestara_webrtc.Events.Kind

-- What a client that polls `n` times receives, and the queue that is left.
unfoldable pub polls : ℕ → List NativeEvent → List NativeEvent × List NativeEvent
unfolding poll
polls zero queue = ([], queue)
polls (suc n) queue =
    let (event, rest) = poll queue in
    let (events, left) = polls n rest in
    elim event [ none ↦ (events, left) | some e ↦ (e ∷ events, left) ]

-- The events of a queue that mean something to the client, in order.
abbrev pub reported : List NativeEvent → List NativeEvent
reported [] = []
reported (event ∷ rest) = if event.kind == Kind.wake then reported rest else event ∷ reported rest

-- A client that polls once for each event in the queue receives all but the wake events, in the order
-- in which they were sent, and leaves the queue empty.
pub polls_all : (queue : List NativeEvent) → polls (length queue) queue ≡ (reported queue, [])
unfolding polls poll
polls_all [] = refl
polls_all (event ∷ rest) = ground (arith, polls_all rest)

reported-append : (xs ys : List NativeEvent) → reported (xs ++ ys) ≡ reported xs ++ reported ys
reported-append [] ys = refl
reported-append (x ∷ xs) ys = ground (arith, reported-append xs ys)
