-- ===== src/Registry/Invariant/Defs.antt =====
-- Well-formed registries, and how the state may change over time. Handles wrap only after 2 ^ 64 - 1
-- of them were given out, and the facts below are stated for the time before that.
use kestara_webrtc.Base.{ℕ, ◌+◌, ◌-◌, ◌%◌, ◌^◌, ◌≤◌, ◌<◌, ◌≡◌, refl, arith, ◌∙◌}
use kestara_webrtc.Events.{completions}
use kestara_webrtc.Map.{Below, Distinct}
use kestara_webrtc.Registry.State.{RuntimeState, Engine}

-- Every handle in use was given out, and the next one was not; no handle stands twice.
pub record WellFormed (s : RuntimeState) : Type 0 where
  pub counter : s.next_handle ≡ (s.issued + 1) % 2 ^ 64
  pub peers_below : Below (s.issued + 1) s.peers
  pub channels_below : Below (s.issued + 1) s.channels
  pub peers_distinct : Distinct s.peers
  pub channels_distinct : Distinct s.channels

abbrev pub HasRoom : RuntimeState → Type 0
HasRoom s = s.issued < 2 ^ 64 - 1

-- `t` comes after `s`: no handle is taken back, a well-formed registry stays well formed, and operation
-- `o` was not completed in between. A task that took a handle before may insert under it.
pub record Later (o : ℕ) (s t : RuntimeState) : Type 0 where
  pub issued_le : s.issued ≤ t.issued
  pub well_formed : WellFormed s → HasRoom t → WellFormed t
  pub quiet : completions o t.events ≡ completions o s.events

-- What is asked of the tasks that run while one waits: that they, too, go forward in this sense, and
-- that none of them completes operation `o`.
pub record Rely (o : ℕ) (eng : Engine) : Type 0 where
  pub later : (s : RuntimeState) → Later o s (eng.interfere s)

pub Later-refl : {o : ℕ} → (s : RuntimeState) → Later o s s
Later-refl s = record { issued_le = omega arith; well_formed = λ w r. w; quiet = refl }

pub Later-trans : {o : ℕ} → {s t u : RuntimeState} → Later o s t → Later o t u → Later o s u
Later-trans {s} {t} {u} a b = record {
  issued_le = omega (arith, a.issued_le, b.issued_le);
  well_formed = λ w r. b.well_formed (a.well_formed w (room r)) r;
  quiet = b.quiet ∙ a.quiet;
}
  where
    room : HasRoom u → HasRoom t
    room r = omega (arith, b.issued_le)

-- A change of the other fields.
pub frame_Later :
    {o : ℕ} (s t : RuntimeState)
    → t.peers ≡ s.peers
    → t.channels ≡ s.channels
    → t.next_handle ≡ s.next_handle
    → t.issued ≡ s.issued
    → completions o t.events ≡ completions o s.events
    → Later o s t
frame_Later s t peers channels next issued quiet = record {
  issued_le = omega arith;
  well_formed = λ w r. record {
    counter = omega (arith, w.counter);
    peers_below = rw (peers, issued) w.peers_below;
    channels_below = rw (channels, issued) w.channels_below;
    peers_distinct = rw peers w.peers_distinct;
    channels_distinct = rw channels w.channels_distinct;
  };
  quiet = quiet;
}
