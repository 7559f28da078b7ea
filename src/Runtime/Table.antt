-- ===== src/Runtime/Table.antt =====
-- The table of runtimes of native/src/runtime.rs: `submit`, `complete_error`, `poll`, `wake`, `release`,
-- the delivery buffers and the reading of the certificate by a runtime's handle. Where the permit of a
-- buffer goes is modelled with the delivery of events.
pub mod Kept
pub mod Lookup
use kestara_webrtc.Base.{
  inl, inr, Bool-cases, ==_self, ℕ, ◌+◌, ◌%◌, ◌^◌, ◌≡◌, refl, Bool, false, Option, none, some, List,
  [], ◌∷◌, ◌++◌, Text, codes, ◌==◌, length, if◌then◌else◌, arith,
}
use kestara_webrtc.Base.Strings.{decimal}
use kestara_webrtc.Errors.{given}
use kestara_webrtc.Events.{NativeEvent, operation_event, err, poll, wake}
use kestara_webrtc.Map
use kestara_webrtc.Map.{Map, get-insert, get-remove}
use kestara_webrtc.Runtime.Command.{Command}
use kestara_webrtc.Registry.Delivery.{Buffer, or_no_bytes}
use kestara_webrtc.Runtime.Certificate.{first_of_list}
use kestara_webrtc.Bridge.Checked.{Checked, valid, invalid, ◌>>=◌}

-- The thread of the control loop, as `release` finds it: its lock is poisoned, it was joined before, it
-- returns, or it has panicked.
pub data Thread : Type 0 where
  lock_poisoned joined returns_well panicked : Thread

-- `accepting` tells that the control loop still receives commands. A certificate is named by its PEM
-- text.
pub record Controller : Type 0 where
  pub commands : List Command
  pub accepting : Bool
  pub events : List NativeEvent
  pub certificate : Text
  pub certificate_poisoned : Bool
  pub buffers : Map Buffer
  pub buffers_poisoned : Bool
  pub thread : Thread

pub record Runtimes : Type 0 where
  pub runtimes : Map Controller
  pub poisoned : Bool
  pub next_runtime : ℕ
  pub next_buffer : ℕ

pub data Request : Type 0 where
  submit : Command → Request
  complete_error : ℕ → Text → Request
  poll_event wake_up release : Request
  register_delivery_buffer : Option (List ℕ) → (permit : ℕ) → Request
  free_buffer : ℕ → Request

-- What a request returns, and the controller that `release` waits for. A view of a buffer is its handle
-- and its length.
pub data Answer : Type 0 where
  nothing : Answer
  view : (handle length : ℕ) → Answer
  polled : Option NativeEvent → Answer
  shuts_down : Controller → Answer

unfoldable pub get_runtime : ℕ → Runtimes → Checked Controller
get_runtime h t =
    if t.poisoned
    then invalid (codes "The WebRTC runtime registry is poisoned")
    else elim (Map.get h t.runtimes) [
      | some c ↦ valid c
      | none ↦ invalid (codes "Unknown WebRTC runtime handle: " ++ decimal h)
    ]

unfoldable pub set_runtime : ℕ → Controller → Runtimes → Runtimes
set_runtime h c t = record t { runtimes = Map.insert h c t.runtimes }

-- The buffer's handle is taken before the lock of the buffers.
unfoldable pub add_buffer : ℕ → Controller → List ℕ → ℕ → Runtimes → Checked Answer × Runtimes
add_buffer h c bytes permit t =
    let handle = t.next_buffer in
    let later = record t { next_buffer = (handle + 1) % 2 ^ 64 } in
    if c.buffers_poisoned
    then (invalid (codes "The native buffer registry is poisoned"), later)
    else (
      valid (view handle (length bytes)),
      set_runtime h
          (record c {
            buffers =
                Map.insert handle (record { bytes = bytes; delivery_permit = some permit })
                  c.buffers;
          })
          later,
    )

unfoldable pub remove_buffer : ℕ → Controller → ℕ → Runtimes → Checked Answer × Runtimes
remove_buffer h c handle t =
    if c.buffers_poisoned
    then (invalid (codes "The native buffer registry is poisoned"), t)
    else (valid nothing, set_runtime h (record c { buffers = Map.remove handle c.buffers }) t)

-- A request other than `release`, on the controller that was found.
unfoldable pub serve : ℕ → Controller → Request → Runtimes → Checked Answer × Runtimes
serve h c (submit command) t =
    if c.accepting
    then (valid nothing, set_runtime h (record c { commands = c.commands ++ (command ∷ []) }) t)
    else (invalid (codes "The WebRTC runtime is shutting down"), t)
serve h c (complete_error operation text) t = (
  valid nothing,
  set_runtime h
      (record c { events = c.events ++ (operation_event operation (err (given text)) ∷ []) }) t,
)
serve h c poll_event t =
    let (event, rest) = poll c.events in
    (valid (polled event), set_runtime h (record c { events = rest }) t)
serve h c wake_up t = (valid nothing, set_runtime h (record c { events = wake c.events }) t)
serve h c (register_delivery_buffer bytes permit) t = add_buffer h c (or_no_bytes bytes) permit t
serve h c (free_buffer handle) t = remove_buffer h c handle t
serve h c release t = (valid nothing, t)

unfoldable pub read_certificate : ℕ → Runtimes → Checked Text
read_certificate h t = do
  c ← get_runtime h t
  if c.certificate_poisoned
      then invalid (codes "The runtime DTLS certificate lock is poisoned")
      else valid c.certificate

unfoldable pub certificate_pem : ℕ → Runtimes → Checked Text
certificate_pem h t = read_certificate h t

first_fingerprint : Option Text → Checked Text
first_fingerprint none = invalid (codes "The runtime DTLS certificate has no fingerprint")
first_fingerprint (some fingerprint) = valid fingerprint

-- `fingerprints` are those that the library computes of a certificate.
unfoldable pub certificate_fingerprint : (Text → List Text) → ℕ → Runtimes → Checked Text
unfolding first_fingerprint
certificate_fingerprint fingerprints h t = do
  certificate ← read_certificate h t
  first_fingerprint (first_of_list (fingerprints certificate))

unfoldable pub found : ℕ → Checked Controller → Request → Runtimes → Checked Answer × Runtimes
unfolding serve
found h (invalid e) request t = (invalid e, t)
found h (valid c) request t = serve h c request t

-- `release` waits for the thread.
unfoldable pub join : Thread → Answer → Checked Answer
join lock_poisoned answer = invalid (codes "The WebRTC runtime thread lock is poisoned")
join joined answer = valid answer
join returns_well answer = valid answer
join panicked answer = invalid (codes "The WebRTC runtime controller panicked during shutdown")

-- The controller leaves the table, and is sent a shutdown of operation 0 that may take two seconds.
removed : Option Controller → Checked Answer
unfolding join
removed none = valid nothing
removed (some c) = join c.thread (
    shuts_down (record c {
      commands = if c.accepting then c.commands ++ (Command.shutdown 0 2000 ∷ []) else c.commands;
    }))

unfoldable pub request : ℕ → Request → Runtimes → Checked Answer × Runtimes
unfolding found removed get_runtime
request h release t =
    if t.poisoned
    then (invalid (codes "The WebRTC runtime registry is poisoned"), t)
    else (removed (Map.get h t.runtimes), record t { runtimes = Map.remove h t.runtimes })
request h r t = found h (get_runtime h t) r t

module _ (h k : ℕ) (other : (h == k) ≡ false) where
  set_runtime-get :
      (c : Controller) (t : Runtimes)
      → Map.get k (set_runtime h c t).runtimes ≡ Map.get k t.runtimes
  unfolding set_runtime
  set_runtime-get c t = rw (get-insert h k c t.runtimes, other)

  serve-get :
      (c : Controller) (r : Request) (t : Runtimes)
      → Map.get k (serve h c r t).1.runtimes ≡ Map.get k t.runtimes
  unfolding serve add_buffer remove_buffer
  serve-get c (submit command) t = elim (Bool-cases c.accepting) [
    | inl e ↦ rw e (set_runtime-get _ t)
    | inr e ↦ rw e refl
  ]
  serve-get c (complete_error operation text) t = set_runtime-get _ t
  serve-get c (register_delivery_buffer bytes permit) t = elim (Bool-cases c.buffers_poisoned) [
    | inl e ↦ rw e refl
    | inr e ↦ rw e (set_runtime-get _ _)
  ]
  serve-get c (free_buffer handle) t = elim (Bool-cases c.buffers_poisoned) [
    | inl e ↦ rw e refl
    | inr e ↦ rw e (set_runtime-get _ t)
  ]
  serve-get c poll_event t = set_runtime-get _ t
  serve-get c wake_up t = set_runtime-get _ t
  serve-get c release t = refl

  found-get :
      (m : Checked Controller) (r : Request) (t : Runtimes)
      → Map.get k (found h m r t).1.runtimes ≡ Map.get k t.runtimes
  unfolding found
  found-get (invalid e) r t = refl
  found-get (valid c) r t = serve-get c r t

-- A request on one runtime leaves every other runtime as it is, whether it succeeds or fails.
pub request_isolated :
    (h k : ℕ) (r : Request) (t : Runtimes)
    → (h == k) ≡ false
    → Map.get k (request h r t).1.runtimes ≡ Map.get k t.runtimes
unfolding request
request_isolated h k release t other = ground (arith, other, get-remove h k t.runtimes)
request_isolated h k (submit command) t other = found-get h k other _ _ t
request_isolated h k (complete_error operation text) t other = found-get h k other _ _ t
request_isolated h k poll_event t other = found-get h k other _ _ t
request_isolated h k (register_delivery_buffer bytes permit) t other = found-get h k other _ _ t
request_isolated h k (free_buffer handle) t other = found-get h k other _ _ t
request_isolated h k wake_up t other = found-get h k other _ _ t

-- What a request on a handle that is not in the table returns.
abbrev pub unknown : ℕ → Request → Checked Answer
unknown h release = valid nothing
unknown h r = invalid (codes "Unknown WebRTC runtime handle: " ++ decimal h)

module _ (h : ℕ) (t : Runtimes) (clear : t.poisoned ≡ false)
    (gone : Map.get h t.runtimes ≡ none) where
  get_runtime-none :
      get_runtime h t ≡ invalid (codes "Unknown WebRTC runtime handle: " ++ decimal h)
  unfolding get_runtime
  get_runtime-none = rw (clear, gone)

  pub absent :
      (r : Request)
      → ((request h r t).0 ≡ unknown h r) × (Map.get h (request h r t).1.runtimes ≡ none)
  unfolding request found removed
  absent release = (rw (clear, gone), rw clear (ground (arith, get-remove h h t.runtimes, gone)))
  absent (submit command) = (rw get_runtime-none, rw get_runtime-none gone)
  absent (complete_error operation text) = (rw get_runtime-none, rw get_runtime-none gone)
  absent poll_event = (rw get_runtime-none, rw get_runtime-none gone)
  absent (register_delivery_buffer bytes permit) = (rw get_runtime-none, rw get_runtime-none gone)
  absent (free_buffer handle) = (rw get_runtime-none, rw get_runtime-none gone)
  absent wake_up = (rw get_runtime-none, rw get_runtime-none gone)

-- Once a runtime is released, even if its thread is found to have panicked, every request on its handle
-- fails, but for `release`, which does nothing; and the handle stays unknown. The lock of the table is not
-- poisoned.
pub released_is_unknown :
    (h : ℕ) (r : Request) (t : Runtimes)
    → t.poisoned ≡ false
    → let t' = (request h release t).1 in
      ((request h r t').0 ≡ unknown h r) × (Map.get h (request h r t').1.runtimes ≡ none)
unfolding request
released_is_unknown h r t clear = rw clear (
    absent h (record t { runtimes = Map.remove h t.runtimes; poisoned = false }) refl
      (ground (arith, get-remove h h t.runtimes, ==_self h)) r)
