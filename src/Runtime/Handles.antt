-- ===== src/Runtime/Handles.antt =====
-- The handles of runtimes, over every history of the table of native/src/runtime.rs.
use kestara_webrtc.Base.{
  ℕ, ◌+◌, ◌%◌, ◌^◌, ◌<◌, ◌≤◌, ◌≡◌, refl, sym, ◌∙◌, ap, Bool, ◌||◌, true, false, none, List, [], ◌∷◌,
  Text, codes, ◌==◌, Bool-cases, ==_iff, inl, inr, arith,
}
use mathlib.Core.Path.{transport}
use kestara_webrtc.Map
use kestara_webrtc.Map.{get-insert}
use kestara_webrtc.Registry.State.{RuntimeState}
use kestara_webrtc.Runtime.Table.{
  Controller, Runtimes, Request, submit, complete_error, poll_event, wake_up, release,
  register_delivery_buffer, free_buffer, serve, found, request, get_runtime, set_runtime,
  add_buffer, remove_buffer, request_isolated, absent,
}
use kestara_webrtc.Runtime.Create.{
  Host, RuntimeConfiguration, initial_certificate, new_controller, enter, with_certificate, create,
}
use kestara_webrtc.Bridge.Checked.{Checked, valid, invalid}

-- The table before the first call.
abbrev pub no_runtimes : Runtimes
no_runtimes = record { runtimes = []; poisoned = false; next_runtime = 1; next_buffer = 1 }

-- A history of the table, with the handles that were given out, newest first. The counter of handles
-- does not wrap; a panic may poison the lock at any time.
pub data History : Runtimes → List ℕ → Type 0 where
  begins : History no_runtimes []
  creates :
      {t : Runtimes} {hs : List ℕ} (host : Host) (c : RuntimeConfiguration) (h : ℕ)
      → History t hs
      → t.next_runtime + 1 < 2 ^ 64
      → (create host c t).0 ≡ valid h
      → History (create host c t).1 (h ∷ hs)
  fails_to_create :
      {t : Runtimes} {hs : List ℕ} (host : Host) (c : RuntimeConfiguration) (e : Text)
      → History t hs
      → t.next_runtime + 1 < 2 ^ 64
      → (create host c t).0 ≡ invalid e
      → History (create host c t).1 hs
  asks :
      {t : Runtimes} {hs : List ℕ} (h : ℕ) (r : Request)
      → History t hs
      → History (request h r t).1 hs
  poisons : {t : Runtimes} {hs : List ℕ} → History t hs → History (record t { poisoned = true }) hs

-- What `create` does to the table, by its result.
abbrev Made : Runtimes → Checked ℕ × Runtimes → Type 0
Made t (valid h, t') =
    (h ≡ t.next_runtime)
    × (t'.next_runtime ≡ t.next_runtime + 1)
    × ((c : Controller) × (t'.runtimes ≡ Map.insert h c t.runtimes))
Made t (invalid e, t') = (t.next_runtime ≤ t'.next_runtime) × (t'.runtimes ≡ t.runtimes)

module _ (host : Host) (c : RuntimeConfiguration) (t : Runtimes)
    (small : t.next_runtime + 1 < 2 ^ 64) where
  enter-Made :
      (certificate : Text) (state : Checked RuntimeState)
      → Made t (
          enter t.next_runtime certificate state
            (record t { next_runtime = (t.next_runtime + 1) % 2 ^ 64 }))
  unfolding enter
  enter-Made certificate (invalid e) = (omega arith, refl)
  enter-Made certificate (valid state) = elim (Bool-cases t.poisoned) [
    | inl e ↦ rw e (omega arith, refl)
    | inr e ↦ rw e (refl, omega arith, (new_controller certificate, refl))
  ]

  with_certificate-Made :
      (certificate : Checked Text) → Made t (with_certificate host c certificate t)
  unfolding with_certificate
  with_certificate-Made (invalid e) = (omega arith, refl)
  with_certificate-Made (valid certificate) = enter-Made certificate _

  create-Made : Made t (create host c t)
  unfolding create
  create-Made = elim (Bool-cases (c.worker_threads == 0)) [
    | inl e ↦ rw e (omega arith, refl)
    | inr e ↦ rw e (with_certificate-Made (initial_certificate host.engine c.certificate_pem))
  ]

set_runtime-next :
    (h : ℕ) (c : Controller) (t : Runtimes) → (set_runtime h c t).next_runtime ≡ t.next_runtime
unfolding set_runtime
set_runtime-next h c t = refl

-- A request takes no handle.
module _ (h : ℕ) (t : Runtimes) where
  serve-next : (c : Controller) (r : Request) → (serve h c r t).1.next_runtime ≡ t.next_runtime
  unfolding serve add_buffer remove_buffer set_runtime
  serve-next c (submit command) = ground arith
  serve-next c (complete_error o text) = refl
  serve-next c poll_event = refl
  serve-next c wake_up = refl
  serve-next c release = refl
  serve-next c (register_delivery_buffer bytes permit) = ground arith
  serve-next c (free_buffer handle) = ground arith

  found-next :
      (m : Checked Controller) (r : Request) → (found h m r t).1.next_runtime ≡ t.next_runtime
  unfolding found
  found-next (valid c) r = serve-next c r
  found-next (invalid e) r = refl

  request-next : (r : Request) → (request h r t).1.next_runtime ≡ t.next_runtime
  unfolding request
  request-next release = ground arith
  request-next (submit command) = found-next _ _
  request-next (complete_error o text) = found-next _ _
  request-next poll_event = found-next _ _
  request-next wake_up = found-next _ _
  request-next (register_delivery_buffer bytes permit) = found-next _ _
  request-next (free_buffer handle) = found-next _ _

  module _ (poisoned : t.poisoned ≡ true) where
    get_runtime-poisoned :
        get_runtime h t ≡ invalid (codes "The WebRTC runtime registry is poisoned")
    unfolding get_runtime
    get_runtime-poisoned = rw poisoned refl

    request-poisoned : (r : Request) → (request h r t).1 ≡ t
    unfolding request found
    request-poisoned release = rw poisoned refl
    request-poisoned (submit command) = rw get_runtime-poisoned refl
    request-poisoned (complete_error o text) = rw get_runtime-poisoned refl
    request-poisoned poll_event = rw get_runtime-poisoned refl
    request-poisoned wake_up = rw get_runtime-poisoned refl
    request-poisoned (register_delivery_buffer bytes permit) = rw get_runtime-poisoned refl
    request-poisoned (free_buffer handle) = rw get_runtime-poisoned refl

  own-unknown :
      (r : Request) → Map.get h t.runtimes ≡ none → Map.get h (request h r t).1.runtimes ≡ none
  own-unknown r gone = elim (Bool-cases t.poisoned) [
    | inl p ↦ rw (request-poisoned p r) gone
    | inr p ↦ (absent h t p gone r).1
  ]

  -- A request makes no runtime.
  request-unknown :
      (k : ℕ) (r : Request)
      → Map.get k t.runtimes ≡ none
      → Map.get k (request h r t).1.runtimes ≡ none
  request-unknown k r gone = elim (Bool-cases (h == k)) [
    | inl e ↦
        let same : h ≡ k = (==_iff h k).0 e in
        transport (λ i. Map.get (same i) (request h r t).1.runtimes ≡ none)
          (own-unknown r (transport (λ i. Map.get (sym same i) t.runtimes ≡ none) gone))
    | inr e ↦ request_isolated h k r t e ∙ gone
  ]

-- Each handle is smaller than the one before it, and the first than the bound.
abbrev pub Descends : ℕ → List ℕ → Type 0
Descends bound [] = Unit
Descends bound (h ∷ hs) = (h < bound) × Descends h hs

abbrev pub among : ℕ → List ℕ → Bool
among k [] = false
among k (h ∷ hs) = (h == k) || among k hs

-- A runtime of the table has a handle that was given out.
abbrev pub Owned : Runtimes → List ℕ → Type 0
Owned t hs = (k : ℕ) → among k hs ≡ false → Map.get k t.runtimes ≡ none

Descends-more : (a b : ℕ) (hs : List ℕ) → a ≤ b → Descends a hs → Descends b hs
Descends-more a b [] le d = tt
Descends-more a b (h ∷ hs) le (l, d) = (omega (arith, le, l), d)

neither : (a b : Bool) → (a || b) ≡ false → (a ≡ false) × (b ≡ false)
neither true b e = absurd (ground (arith, e))
neither false b e = (refl, e)

module _ (t : Runtimes) (hs : List ℕ) (descends : Descends t.next_runtime hs)
    (owned : Owned t hs) where
  Made-Owned :
      (x : Checked ℕ × Runtimes) (h : ℕ)
      → Made t x
      → x.0 ≡ valid h
      → Descends x.1.next_runtime (h ∷ hs) × Owned x.1 (h ∷ hs)
  Made-Owned (invalid e, t') h made q = absurd (ground (arith, q))
  Made-Owned (valid h', t') h (same, next, (c, entered)) q =
      let given : h' ≡ h = ground (arith, q) in
      let first : t.next_runtime ≡ h = sym same ∙ given in
      (
        (omega (arith, next, first), transport (λ i. Descends (first i) hs) descends),
        λ k out.
            let (apart, rest) = neither (h == k) (among k hs) out in
            ap (Map.get k) entered
            ∙ (get-insert h' k c t.runtimes ∙ rw (given, apart) (owned k rest)),
      )

  failed-Owned :
      (x : Checked ℕ × Runtimes) (e : Text)
      → Made t x
      → x.0 ≡ invalid e
      → Descends x.1.next_runtime hs × Owned x.1 hs
  failed-Owned (valid h, t') e made q = absurd (ground (arith, q))
  failed-Owned (invalid d, t') e (next, kept) q =
      (Descends-more _ _ hs next descends, λ k out. ap (Map.get k) kept ∙ owned k out)

-- However runtimes are created, asked, released and poisoned, their handles are handed out in ascending
-- order, so that none is handed out twice, and each runtime of the table has a handle that was handed
-- out. The counter of handles has not wrapped.
pub handles_never_reused :
    {t : Runtimes} {hs : List ℕ} → History t hs → Descends t.next_runtime hs × Owned t hs
unfolding Map.get
handles_never_reused begins = (tt, λ k out. refl)
handles_never_reused (creates {t} {hs} host c h past small made) =
    let (descends, owned) = handles_never_reused past in
    Made-Owned t hs descends owned (create host c t) h (create-Made host c t small) made
handles_never_reused (fails_to_create {t} {hs} host c e past small made) =
    let (descends, owned) = handles_never_reused past in
    failed-Owned t hs descends owned (create host c t) e (create-Made host c t small) made
handles_never_reused (asks {t} {hs} h r past) =
    let (descends, owned) = handles_never_reused past in
    (
      transport (λ i. Descends (sym (request-next h t r) i) hs) descends,
      λ k out. request-unknown h t k r (owned k out),
    )
handles_never_reused (poisons past) = handles_never_reused past
