-- ===== src/Runtime/Table/Kept.antt =====
-- A delivery buffer of native/src/runtime.rs is kept, whatever else is asked of the runtimes.
use kestara_webrtc.Base.{
  ℕ, ◌+◌, ◌-◌, ◌%◌, ◌^◌, ◌<◌, ◌≡◌, refl, sym, ◌∙◌, Bool, true, false, some, ◌==◌, ◌&&◌, ◌≤◌,
  if◌then◌else◌, arith, Bool-cases, inl, inr, ==_self, ==_iff,
}
use mathlib.Core.Path.{subst}
use kestara_webrtc.Map
use kestara_webrtc.Map.{get-insert, get-remove}
use kestara_webrtc.Registry.Delivery.{Buffer, or_no_bytes}
use kestara_webrtc.Runtime.Table.{
  Controller, Answer, Runtimes, Request, submit, complete_error, poll_event, wake_up, release,
  register_delivery_buffer, free_buffer, request, found, serve, add_buffer, remove_buffer,
  set_runtime, get_runtime, request_isolated,
}
use kestara_webrtc.Bridge.Checked.{Checked, valid, invalid}

module _ (h b : ℕ) (kept : Buffer) where
  -- The runtime `h` has the buffer `b`, and can be asked for it.
  pub record Holds (t : Runtimes) : Type 0 where
    pub controller : Controller
    pub clear : t.poisoned ≡ false
    pub there : Map.get h t.runtimes ≡ some controller
    pub usable : controller.buffers_poisoned ≡ false
    pub buffer : Map.get b controller.buffers ≡ some kept
    pub older : b < t.next_buffer

  -- Neither the buffer nor its runtime is released.
  abbrev pub Leaves : ℕ → Request → Type 0
  Leaves k (free_buffer c) = (k == h && c == b) ≡ false
  Leaves k release = (k == h) ≡ false
  Leaves k _ = Unit

module _ (h b : ℕ) (kept : Buffer) (t : Runtimes) (holds : Holds h b kept t) where
  store :
      (c : Controller) (n : ℕ)
      → c.buffers_poisoned ≡ false
      → Map.get b c.buffers ≡ some kept
      → b < n
      → Holds h b kept (set_runtime h c (record t { next_buffer = n }))
  unfolding set_runtime
  store c n usable buffer older = record {
    controller = c;
    clear = holds.clear;
    there = ground (arith, get-insert h h c t.runtimes, ==_self h);
    usable = usable;
    buffer = buffer;
    older = older;
  }

  holds_if :
      (poisoned : Bool) (x y : Checked Answer × Runtimes)
      → poisoned ≡ false
      → Holds h b kept y.1
      → Holds h b kept (if poisoned then x else y).1
  holds_if true x y e holds' = absurd (ground (arith, e))
  holds_if false x y e holds' = holds'

  own_request :
      (r : Request)
      → Leaves h b kept h r
      → t.next_buffer < 2 ^ 64 - 1
      → Holds h b kept (serve h holds.controller r t).1
  unfolding serve add_buffer remove_buffer
  own_request (submit command) l room = elim (Bool-cases holds.controller.accepting) [
    | inl e ↦ rw e (store _ t.next_buffer holds.usable holds.buffer holds.older)
    | inr e ↦ rw e holds
  ]
  own_request (complete_error o text) l room =
      store _ t.next_buffer holds.usable holds.buffer holds.older
  own_request poll_event l room = store _ t.next_buffer holds.usable holds.buffer holds.older
  own_request wake_up l room = store _ t.next_buffer holds.usable holds.buffer holds.older
  own_request release l room = holds
  own_request (register_delivery_buffer bytes permit) l room =
      holds_if holds.controller.buffers_poisoned _ _ holds.usable (
        store _ ((t.next_buffer + 1) % 2 ^ 64) holds.usable
          (ground (
            arith,
            get-insert t.next_buffer b
                (record { bytes = or_no_bytes bytes; delivery_permit = some permit })
                holds.controller.buffers,
            holds.buffer,
            holds.older,
          ))
          (omega (arith, holds.older)))
  own_request (free_buffer c) l room = holds_if holds.controller.buffers_poisoned _ _ holds.usable (
      store _ t.next_buffer holds.usable
        (ground (arith, l, ==_self h, get-remove c b holds.controller.buffers, holds.buffer))
        holds.older)

  found_here : get_runtime h t ≡ valid holds.controller
  unfolding get_runtime
  found_here = rw (holds.clear, holds.there) refl

  here_Holds :
      (r : Request)
      → Leaves h b kept h r
      → t.next_buffer < 2 ^ 64 - 1
      → Holds h b kept (request h r t).1
  unfolding request found
  here_Holds release l room = absurd (ground (arith, l, ==_self h))
  here_Holds (submit command) l room = rw found_here (own_request (submit command) l room)
  here_Holds (complete_error o text) l room =
      rw found_here (own_request (complete_error o text) l room)
  here_Holds poll_event l room = rw found_here (own_request poll_event l room)
  here_Holds wake_up l room = rw found_here (own_request wake_up l room)
  here_Holds (register_delivery_buffer bytes permit) l room =
      rw found_here (own_request (register_delivery_buffer bytes permit) l room)
  here_Holds (free_buffer c) l room = rw found_here (own_request (free_buffer c) l room)

-- A request does not poison the table, and takes no handle of a buffer back.
record Goes (t u : Runtimes) : Type 0 where
  clear : u.poisoned ≡ t.poisoned
  counter : t.next_buffer ≤ u.next_buffer

module _ (t : Runtimes) (room : t.next_buffer < 2 ^ 64 - 1) where
  serve-Goes : (k : ℕ) (c : Controller) (r : Request) → Goes t (serve k c r t).1
  unfolding serve add_buffer remove_buffer set_runtime
  serve-Goes k c (submit command) = elim (Bool-cases c.accepting) [
    | inl e ↦ rw e (record { clear = refl; counter = omega arith })
    | inr e ↦ rw e (record { clear = refl; counter = omega arith })
  ]
  serve-Goes k c (complete_error o text) = record { clear = refl; counter = omega arith }
  serve-Goes k c poll_event = record { clear = refl; counter = omega arith }
  serve-Goes k c wake_up = record { clear = refl; counter = omega arith }
  serve-Goes k c release = record { clear = refl; counter = omega arith }
  serve-Goes k c (register_delivery_buffer bytes permit) = elim (Bool-cases c.buffers_poisoned) [
    | inl e ↦ rw e (record { clear = refl; counter = omega arith })
    | inr e ↦ rw e (record { clear = refl; counter = omega arith })
  ]
  serve-Goes k c (free_buffer d) = elim (Bool-cases c.buffers_poisoned) [
    | inl e ↦ rw e (record { clear = refl; counter = omega arith })
    | inr e ↦ rw e (record { clear = refl; counter = omega arith })
  ]

  found-Goes : (k : ℕ) (m : Checked Controller) (r : Request) → Goes t (found k m r t).1
  unfolding found
  found-Goes k (valid c) r = serve-Goes k c r
  found-Goes k (invalid e) r = record { clear = refl; counter = omega arith }

  request-Goes : (k : ℕ) (r : Request) → Goes t (request k r t).1
  unfolding request
  request-Goes k release = elim (Bool-cases t.poisoned) [
    | inl e ↦ rw e (record { clear = refl; counter = omega arith })
    | inr e ↦ rw e (record { clear = refl; counter = omega arith })
  ]
  request-Goes k (submit command) = found-Goes k _ _
  request-Goes k (complete_error o text) = found-Goes k _ _
  request-Goes k poll_event = found-Goes k _ _
  request-Goes k wake_up = found-Goes k _ _
  request-Goes k (register_delivery_buffer bytes permit) = found-Goes k _ _
  request-Goes k (free_buffer d) = found-Goes k _ _

-- A request that releases neither the buffer nor its runtime keeps the buffer.
pub request-Holds :
    (h b : ℕ) (kept : Buffer) (k : ℕ) (r : Request) (t : Runtimes)
    → Holds h b kept t
    → Leaves h b kept k r
    → t.next_buffer < 2 ^ 64 - 1
    → Holds h b kept (request k r t).1
request-Holds h b kept k r t holds l room = elim (Bool-cases (k == h)) [
  | inl e ↦
      let same : k ≡ h = ground (arith, e, ==_iff k h) in
      subst (λ j. Leaves h b kept j r → Holds h b kept (request j r t).1) (sym same)
        (λ l'. here_Holds h b kept t holds r l' room) l
  | inr e ↦
      let goes = request-Goes t room k r in
      record {
        controller = holds.controller;
        clear = goes.clear ∙ holds.clear;
        there = request_isolated k h r t e ∙ holds.there;
        usable = holds.usable;
        buffer = holds.buffer;
        older = omega (arith, holds.older, goes.counter);
      }
]

-- Requests that release neither the buffer nor its runtime, made while the counter of buffers is below
-- 2 ^ 64 - 1.
pub data Uses (h b : ℕ) (kept : Buffer) : Runtimes → Runtimes → Type 0 where
  unused : {t : Runtimes} → Uses h b kept t t
  uses :
      {t u : Runtimes} (k : ℕ) (r : Request)
      → Uses h b kept t u
      → Leaves h b kept k r
      → u.next_buffer < 2 ^ 64 - 1
      → Uses h b kept t (request k r u).1

pub Uses-Holds :
    (h b : ℕ) (kept : Buffer) {t u : Runtimes}
    → Uses h b kept t u
    → Holds h b kept t
    → Holds h b kept u
Uses-Holds h b kept unused holds = holds
Uses-Holds h b kept (uses k r more l room) holds =
    request-Holds h b kept k r _ (Uses-Holds h b kept more holds) l room
