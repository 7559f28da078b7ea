-- ===== src/Registry/Builder/Ports.antt =====
-- The search for a port in `create_peer` of native/src/registry.rs.
use kestara_webrtc.Base.{
  sym, ap, ℕ, ◌≡◌, refl, ◌∙◌, true, false, Option, none, some, List, [], ◌∷◌, ◌++◌, arith, Text,
  ◌==◌,
}
use mathlib.Core.List.{append-nil}
use kestara_webrtc.Errors.{no_port_in_range}
use kestara_webrtc.Registry.Types.{PeerConfiguration}
use kestara_webrtc.Registry.State.{RuntimeState, Engine, Call, build, good, bad}
use kestara_webrtc.Registry.Task.{
  Task, done, fails, pure, fail, gets, modify, check_lock, continue, ◌>>=◌, ◌>>◌,
}
use kestara_webrtc.Registry.Access.{lock_certificate, next_handle, issue, lock_registry}
use kestara_webrtc.Registry.Runs.{Alone, await_bind, lock_bind}
use kestara_webrtc.Registry.Builder.{
  build_request, is_bind_error, after_build, try_ports, port_range, built_peer, add_peer,
  create_peer, or_unknown,
}

module _ (eng : Engine) (c : PeerConfiguration) (h : ℕ) (s : RuntimeState) where
  -- The call that tries one port, and those that try several in turn, on top of earlier calls.
  abbrev pub try_call : ℕ → Call
  try_call port = build (build_request eng c h s.certificate s.socket_mux port)

  abbrev pub try_calls : List ℕ → List Call → List Call
  try_calls [] calls = calls
  try_calls (port ∷ ports) calls = try_calls ports (try_call port ∷ calls)

  -- Each of the ports is a real one and cannot be bound; `last` becomes the last error.
  pub data AllTaken : List Call → Option Text → List ℕ → Option Text → Type 0 where
    no_more : {calls : List Call} {last : Option Text} → AllTaken calls last [] last
    one_taken :
        {calls : List Call} {last final : Option Text} {port : ℕ} {ports : List ℕ} (text : Text)
        → (port == 0) ≡ false
        → eng.built (try_call port ∷ calls) ≡ bad text
        → is_bind_error text ≡ true
        → AllTaken (try_call port ∷ calls) (some text) ports final
        → AllTaken calls last (port ∷ ports) final

  module _ (alone : Alone eng) (clear : s.certificate_poisoned ≡ false) where
    try_one :
        (port : ℕ) (ports : List ℕ) (last : Option Text) (calls : List Call)
        → try_ports eng c h (port ∷ ports) last (record s { trace = calls })
          ≡ after_build port last
              (try_ports eng c h ports)
              (eng.built (try_call port ∷ calls))
              (record s { trace = try_call port ∷ calls })
    unfolding try_ports lock_certificate check_lock gets ◌>>=◌
    try_one port ports last calls = ground (
      arith,
      clear,
      await_bind eng alone (try_call port) eng.built
          (after_build port last (try_ports eng c h ports)) (record s { trace = calls }),
    )

    try_good :
        (port : ℕ) (ports : List ℕ) (last : Option Text) (calls : List Call) (peer : ℕ)
        → eng.built (try_call port ∷ calls) ≡ good peer
        → try_ports eng c h (port ∷ ports) last (record s { trace = calls })
          ≡ (done (some peer, last), record s { trace = try_call port ∷ calls })
    unfolding after_build pure
    try_good port ports last calls peer e = try_one port ports last calls ∙ rw e refl

    skip_taken :
        {calls : List Call} {last final : Option Text} {before : List ℕ} (rest : List ℕ)
        → AllTaken calls last before final
        → try_ports eng c h (before ++ rest) last (record s { trace = calls })
          ≡ try_ports eng c h rest final (record s { trace = try_calls before calls })
    unfolding after_build
    skip_taken rest AllTaken.no_more = refl
    skip_taken {calls} {last} rest
          (AllTaken.one_taken {port = port} {ports = ports} text real e bind more) =
        try_one port (ports ++ rest) last calls ∙ rw (e, real, bind) (skip_taken rest more)

module _ (eng : Engine) (c : PeerConfiguration) (s : RuntimeState) (alone : Alone eng) where
  module _ (clear : s.poisoned ≡ false) (sound : s.certificate_poisoned ≡ false) where
    -- `create_peer` after its search.
    abbrev finish : Option ℕ × Option Text → Task ℕ
    finish found = do
      peer ← built_peer c found
      lock_registry
      modify (
          add_peer s.next_handle
            (record { peer = peer; receive_queue_capacity = c.sctp.receive_queue_capacity }))
      pure s.next_handle

    create_peer_searches :
        create_peer eng c s
        ≡ (try_ports eng c s.next_handle (port_range c.min_port c.max_port) none >>= finish)
            (issue s)
    unfolding create_peer next_handle gets modify pure ◌>>=◌
    create_peer_searches = refl

    searched :
        (before rest : List ℕ) (final : Option Text)
        → port_range c.min_port c.max_port ≡ before ++ rest
        → AllTaken eng c s.next_handle s s.trace none before final
        → create_peer eng c s
          ≡ (try_ports eng c s.next_handle rest final >>= finish)
              (record (issue s) { trace = try_calls eng c s.next_handle s before s.trace })
    unfolding ◌>>=◌ issue
    searched before rest final range all_taken =
        create_peer_searches
        ∙ rw range (
            ap (λ found. continue found.0 finish found.1)
              (skip_taken eng c s.next_handle (issue s) alone sound rest (again all_taken)))
      where
        again :
            {calls : List Call} {last : Option Text} {ports : List ℕ}
            → AllTaken eng c s.next_handle s calls last ports final
            → AllTaken eng c s.next_handle (issue s) calls last ports final
        again AllTaken.no_more = AllTaken.no_more
        again (AllTaken.one_taken text real e bind more) =
            AllTaken.one_taken text real e bind (again more)

-- Left alone, let the ports of the range before `port` be taken, and `port` not. `create_peer` tries
-- the ports in turn up to `port`, once each, and returns the next handle, under which it registers the
-- peer that was built, with the capacity of its receive queue.
pub create_peer_binds :
    (eng : Engine) (c : PeerConfiguration) (s : RuntimeState) (before : List ℕ) (port : ℕ)
    (after : List ℕ) (final : Option Text) (peer : ℕ)
    → Alone eng
    → s.poisoned ≡ false
    → s.certificate_poisoned ≡ false
    → port_range c.min_port c.max_port ≡ before ++ (port ∷ after)
    → AllTaken eng c s.next_handle s s.trace none before final
    → let calls =
        try_call eng c s.next_handle s port ∷ try_calls eng c s.next_handle s before s.trace in
      eng.built calls ≡ good peer
      → create_peer eng c s ≡ (
        done s.next_handle,
        add_peer s.next_handle
            (record { peer = peer; receive_queue_capacity = c.sctp.receive_queue_capacity })
            (record (issue s) { trace = calls }),
      )
unfolding ◌>>=◌ issue after_build pure built_peer modify
create_peer_binds eng c s before port after final peer alone clear sound range all_taken e =
    let calls = try_calls eng c s.next_handle s before s.trace in
    searched eng c s alone clear sound before (port ∷ after) final range all_taken
    ∙ ap (λ found. continue found.0 (finish eng c s alone clear sound) found.1)
        (try_good eng c s.next_handle (issue s) alone sound port after final calls peer e)
    ∙ lock_bind _ _ clear

-- Left alone, let every port of the range be taken, or the range be empty, its bounds being crossed.
-- `create_peer` tries each port once and fails with an error that names the range and the last bind
-- error. The handle is used up, and no peer is registered.
pub create_peer_exhausted :
    (eng : Engine) (c : PeerConfiguration) (s : RuntimeState) (final : Option Text)
    → Alone eng
    → s.poisoned ≡ false
    → s.certificate_poisoned ≡ false
    → (c.min_port == 0) ≡ false
    → AllTaken eng c s.next_handle s s.trace none (port_range c.min_port c.max_port) final
    → create_peer eng c s ≡ (
      fails (no_port_in_range c.min_port c.max_port (or_unknown final)),
      record (issue s) {
        trace = try_calls eng c s.next_handle s (port_range c.min_port c.max_port) s.trace;
      },
    )
unfolding ◌>>=◌ issue try_ports pure fail built_peer
create_peer_exhausted eng c s final alone clear sound real all_taken =
    searched eng c s alone clear sound _ [] final (sym (append-nil _)) all_taken ∙ rw real refl
