-- ===== src/Registry/Shutdown.antt =====
-- `shutdown_all` of native/src/registry.rs: the registry is emptied at once, and then the peers are closed by
-- the tasks of a join set, which run concurrently.
use kestara_webrtc.Base.{
  ℕ, suc, ◌+◌, ◌*◌, ◌≡◌, refl, ap, ◌∙◌, Bool, true, false, List, [], ◌∷◌, ◌++◌, length,
  if◌then◌else◌, arith,
}
use kestara_webrtc.Map.{Map}
use kestara_webrtc.Registry.State.{RuntimeState, PeerEntry, Call, lock_operations}
use kestara_webrtc.Registry.Task.{Task, done, gets, modify, pure, ◌>>=◌, ◌>>◌}
use kestara_webrtc.Registry.Access.{lock_registry}
use kestara_webrtc.Registry.Peers.{clear_registry}
use kestara_webrtc.Registry.Runs.{lock_bind}

-- A task that closes one peer: it waits for the peer's lock, or holds it and waits for the library.
pub data Closing : Type 0 where
  waiting closing : ℕ → PeerEntry → Closing

abbrev pub closings : Map PeerEntry → List Closing
closings [] = []
closings ((h, entry) ∷ rest) = waiting h entry ∷ closings rest

-- The critical section, and the tasks that are spawned.
unfoldable pub shutdown_all : Task (List Closing)
shutdown_all = do
  lock_registry
  entries ← gets (λ s. s.peers)
  modify clear_registry
  pure (closings entries)

-- The tasks that were not joined yet, and the calls made, newest first.
pub record JoinSet : Type 0 where
  pub tasks : List Closing
  pub trace : List Call

abbrev pub spawned_by : RuntimeState → JoinSet
spawned_by s = record { tasks = closings s.peers; trace = s.trace }

-- One step of one task. What the library answers is dropped.
pub data Step : JoinSet → JoinSet → Type 0 where
  locks :
      {j : JoinSet} (before after : List Closing) (h : ℕ) (entry : PeerEntry)
      → j.tasks ≡ before ++ (waiting h entry ∷ after)
      → Step j (record {
        tasks = before ++ (closing h entry ∷ after);
        trace = lock_operations h ∷ j.trace;
      })
  closes :
      {j : JoinSet} (before after : List Closing) (h : ℕ) (entry : PeerEntry)
      → j.tasks ≡ before ++ (closing h entry ∷ after)
      → Step j (record { tasks = before ++ after; trace = Call.close_peer entry.peer ∷ j.trace })

pub data Steps : ℕ → JoinSet → JoinSet → Type 0 where
  stays : {j : JoinSet} → Steps 0 j j
  steps : {n : ℕ} {j k l : JoinSet} → Steps n j k → Step k l → Steps (suc n) j l

-- The calls that a task has left, and those of all tasks.
abbrev pub calls_left : List Closing → List Call
calls_left [] = []
calls_left (waiting h entry ∷ rest) =
    lock_operations h ∷ Call.close_peer entry.peer ∷ calls_left rest
calls_left (closing h entry ∷ rest) = Call.close_peer entry.peer ∷ calls_left rest

-- How many calls pass the test.
abbrev pub tally : (Call → Bool) → List Call → ℕ
tally p [] = 0
tally p (call ∷ rest) = (if p call then 1 else 0) + tally p rest

-- The calls that close every peer of a map: each takes the peer's lock, and closes the peer.
abbrev pub close_calls : Map PeerEntry → List Call
close_calls [] = []
close_calls ((h, entry) ∷ rest) = lock_operations h ∷ Call.close_peer entry.peer ∷ close_calls rest

module _ (p : Call → Bool) where
  locks_one :
      (before after : List Closing) (h : ℕ) (entry : PeerEntry)
      → tally p (calls_left (before ++ (waiting h entry ∷ after)))
        ≡ (if p (lock_operations h) then 1 else 0)
          + tally p (calls_left (before ++ (closing h entry ∷ after)))
  locks_one [] after h entry = refl
  locks_one (waiting k e ∷ before) after h entry = omega (arith, locks_one before after h entry)
  locks_one (closing k e ∷ before) after h entry = omega (arith, locks_one before after h entry)

  closes_one :
      (before after : List Closing) (h : ℕ) (entry : PeerEntry)
      → tally p (calls_left (before ++ (closing h entry ∷ after)))
        ≡ (if p (Call.close_peer entry.peer) then 1 else 0) + tally p (calls_left (before ++ after))
  closes_one [] after h entry = refl
  closes_one (waiting k e ∷ before) after h entry = omega (arith, closes_one before after h entry)
  closes_one (closing k e ∷ before) after h entry = omega (arith, closes_one before after h entry)

  -- What was called and what is left.
  abbrev total : JoinSet → ℕ
  total j = tally p j.trace + tally p (calls_left j.tasks)

  Step-total : {j k : JoinSet} → Step j k → total k ≡ total j
  Step-total {j} (locks before after h entry e) =
      rw e (omega (arith, locks_one before after h entry))
  Step-total {j} (closes before after h entry e) =
      rw e (omega (arith, closes_one before after h entry))

  Steps-total : {n : ℕ} {j k : JoinSet} → Steps n j k → total k ≡ total j
  Steps-total stays = refl
  Steps-total (steps more step) = omega (arith, Steps-total more, Step-total step)

abbrev pub any_call : Call → Bool
any_call call = true

Steps-count :
    {n : ℕ} {j k : JoinSet}
    → Steps n j k
    → n + tally any_call (calls_left k.tasks) ≡ tally any_call (calls_left j.tasks)
Steps-count stays = omega arith
Steps-count (steps more (locks before after h entry e)) = omega (
  arith,
  Steps-count more,
  locks_one any_call before after h entry,
  ap (λ tasks. tally any_call (calls_left tasks)) e,
)
Steps-count (steps more (closes before after h entry e)) = omega (
  arith,
  Steps-count more,
  closes_one any_call before after h entry,
  ap (λ tasks. tally any_call (calls_left tasks)) e,
)

calls_left-closings :
    (entries : Map PeerEntry) → calls_left (closings entries) ≡ close_calls entries
calls_left-closings [] = refl
calls_left-closings ((h, entry) ∷ rest) = rw (calls_left-closings rest) refl

two_each : (entries : Map PeerEntry) → tally any_call (close_calls entries) ≡ 2 * length entries
two_each [] = omega arith
two_each ((h, entry) ∷ rest) = omega (arith, two_each rest)

-- `shutdown_all` empties the registry and spawns a task for each peer that was in it. However these tasks
-- interleave, what they have called and what they have left to call are, together, one lock and one
-- `close` of each of the peers: so when all tasks are joined, each peer's lock was taken and each peer was
-- closed, once, and this takes two steps for each peer. The lock of the registry is not poisoned.
pub shutdown_all_closes :
    (s : RuntimeState) (n : ℕ) (k : JoinSet)
    → s.poisoned ≡ false
    → Steps n (spawned_by s) k
    → (shutdown_all s ≡ (done (closings s.peers), record s { peers = []; channels = [] }))
      × ((p : Call → Bool)
          → tally p k.trace + tally p (calls_left k.tasks)
            ≡ tally p s.trace + tally p (close_calls s.peers))
      × (n + tally any_call (calls_left k.tasks) ≡ 2 * length s.peers)
unfolding shutdown_all clear_registry gets modify pure ◌>>=◌
shutdown_all_closes s n k clear run = (
  lock_bind s _ clear,
  λ p. Steps-total p run ∙ rw (calls_left-closings s.peers) refl,
  Steps-count run ∙ rw (calls_left-closings s.peers) (two_each s.peers),
)
