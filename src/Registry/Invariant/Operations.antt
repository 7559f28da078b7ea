-- ===== src/Registry/Invariant/Operations.antt =====
-- Every operation of native/src/registry.rs on peers only goes forward, on every path: when it succeeds, when it
-- fails and when its deadline drops it at a wait.
use kestara_webrtc.Base.{ℕ, Bool, Option, none, some, List, [], ◌∷◌, Text}
use kestara_webrtc.Registry.Types.{
  IceServer, SessionDescription, IceCandidateInit, PeerConfiguration,
}
use kestara_webrtc.Registry.State.{Engine, PeerEntry, Reply, good, bad}
use kestara_webrtc.Registry.Task.{Task}
use kestara_webrtc.Registry.Access.{
  lock_registry, lock_certificate, get_peer, get_channel, lock_peer,
}
use kestara_webrtc.Registry.Builder.{try_ports, after_build, built_peer, create_peer}
use kestara_webrtc.Registry.Peers
use kestara_webrtc.Runtime.Certificate
use kestara_webrtc.Registry.Invariant.Defs.{Rely}
use kestara_webrtc.Registry.Invariant.Rules.{
  Ensures, Ensures-modify, Ensures-pure, Ensures-fail, Ensures-bind, Ensures-await, Ensures-if,
  Ensures-gets, Ensures-send_event, ensures_rules,
}
use kestara_webrtc.Registry.Invariant.Steps.{forget_peer-Later, install_certificate-Later}
use kestara_webrtc.Registry.Invariant.Fresh.{
  Goes-Ensures, Goes-bind, Goes-add_peer, Ensures-next_handle,
}

pub lock_registry-Ensures : {o : ℕ} → Ensures o lock_registry
unfolding lock_registry
lock_registry-Ensures = search ensures_rules

pub lock_certificate-Ensures : {o : ℕ} → Ensures o lock_certificate
unfolding lock_certificate
lock_certificate-Ensures = search ensures_rules

pub get_peer-Ensures : {o : ℕ} (h : ℕ) → Ensures o (get_peer h)
unfolding get_peer
get_peer-Ensures h = search (ensures_rules, lock_registry-Ensures)

pub get_channel-Ensures : {o : ℕ} (h : ℕ) → Ensures o (get_channel h)
unfolding get_channel
get_channel-Ensures h = search (ensures_rules, lock_registry-Ensures)

pub ruleset access_rules = (
  ensures_rules, lock_registry-Ensures, lock_certificate-Ensures, get_peer-Ensures,
  get_channel-Ensures, Ensures-modify,
)

module _ {o : ℕ} (eng : Engine) (rely : Rely o eng) where
  pub lock_peer-Ensures : (h : ℕ) → Ensures o (lock_peer eng h)
  unfolding lock_peer
  lock_peer-Ensures h = search ensures_rules

  pub create_description-Ensures :
      (h : ℕ) (answer : Bool) → Ensures o (Peers.create_description eng h answer)
  unfolding Peers.create_description
  create_description-Ensures h answer = search (access_rules, lock_peer-Ensures) depth 12

  pub set_local_description-Ensures :
      (h : ℕ) (d : SessionDescription) → Ensures o (Peers.set_local_description eng h d)
  unfolding Peers.set_local_description
  set_local_description-Ensures h d = search (access_rules, lock_peer-Ensures) depth 12

  pub set_remote_description-Ensures :
      (h : ℕ) (d : SessionDescription) → Ensures o (Peers.set_remote_description eng h d)
  unfolding Peers.set_remote_description
  set_remote_description-Ensures h d = search (access_rules, lock_peer-Ensures) depth 12

  pub add_ice_candidate-Ensures :
      (h : ℕ) (c : IceCandidateInit) → Ensures o (Peers.add_ice_candidate eng h c)
  unfolding Peers.add_ice_candidate
  add_ice_candidate-Ensures h c = search (access_rules, lock_peer-Ensures) depth 12

  pub restart_ice-Ensures : (h : ℕ) → Ensures o (Peers.restart_ice eng h)
  unfolding Peers.restart_ice
  restart_ice-Ensures h = search (access_rules, lock_peer-Ensures) depth 12

  pub set_configuration-Ensures :
      (h : ℕ) (servers : List IceServer) (relay_only : Bool)
      → Ensures o (Peers.set_configuration eng h servers relay_only)
  unfolding Peers.set_configuration
  set_configuration-Ensures h servers relay_only = search (access_rules, lock_peer-Ensures) depth 12

  pub get_stats-Ensures : (h : ℕ) → Ensures o (Peers.get_stats eng h)
  unfolding Peers.get_stats
  get_stats-Ensures h = search (access_rules, lock_peer-Ensures) depth 12

  pub close_entry-Ensures :
      (h : ℕ) (entry : Option PeerEntry) → Ensures o (Peers.close_entry eng h entry)
  unfolding Peers.close_entry
  close_entry-Ensures h none = Ensures-pure tt
  close_entry-Ensures h (some entry) = search (access_rules, lock_peer-Ensures) depth 12

  pub close_peer-Ensures : (h : ℕ) → Ensures o (Peers.close_peer eng h)
  unfolding Peers.close_peer
  close_peer-Ensures h = search (access_rules, forget_peer-Later, close_entry-Ensures) depth 12

  after_build-Ensures :
      (port : ℕ) (last : Option Text) (next : Option Text → Task (Option ℕ × Option Text))
      (reply : Reply ℕ)
      → ((text : Option Text) → Ensures o (next text))
      → Ensures o (after_build port last next reply)
  unfolding after_build
  after_build-Ensures port last next (good peer) h = Ensures-pure _
  after_build-Ensures port last next (bad text) h =
      Ensures-if _ _ _ (Ensures-fail _) (h (some text))

  try_ports-Ensures :
      (c : PeerConfiguration) (h : ℕ) (ports : List ℕ) (last : Option Text)
      → Ensures o (try_ports eng c h ports last)
  unfolding try_ports
  try_ports-Ensures c h [] last = Ensures-pure _
  try_ports-Ensures c h (port ∷ ports) last =
      Ensures-bind _ _ lock_certificate-Ensures λ certificate.
        Ensures-bind _ _ (Ensures-gets _) λ mux.
          Ensures-bind _ _ (Ensures-await eng _ _ rely)
            λ reply. after_build-Ensures port last _ reply (try_ports-Ensures c h ports)

  built_peer-Ensures :
      (c : PeerConfiguration) (found : Option ℕ × Option Text) → Ensures o (built_peer c found)
  unfolding built_peer
  built_peer-Ensures c (some peer, last) = Ensures-pure peer
  built_peer-Ensures c (none, last) = Ensures-if _ _ _ (Ensures-fail _) (Ensures-fail _)

  pub create_peer-Ensures : (c : PeerConfiguration) → Ensures o (create_peer eng c)
  unfolding create_peer
  create_peer-Ensures c = Ensures-next_handle _ λ s h.
      Goes-bind _ _ (Goes-Ensures (try_ports-Ensures c h _ none)) λ found.
        Goes-bind _ _ (Goes-Ensures (built_peer-Ensures c found)) λ peer.
          Goes-bind _ _ (Goes-Ensures lock_registry-Ensures)
            λ _. Goes-bind _ _ (Goes-add_peer _) λ _. Goes-Ensures (Ensures-pure h)

  import_certificate-Ensures : (pem : Text) → Ensures o (Certificate.import_certificate eng pem)
  unfolding Certificate.import_certificate
  import_certificate-Ensures pem = search ensures_rules

  generate_certificate-Ensures : Ensures o (Certificate.generate_certificate eng)
  unfolding Certificate.generate_certificate
  generate_certificate-Ensures = search ensures_rules

  choose_certificate-Ensures :
      (pem : Option Text) → Ensures o (Certificate.choose_certificate eng pem)
  unfolding Certificate.choose_certificate
  choose_certificate-Ensures (some pem) = import_certificate-Ensures pem
  choose_certificate-Ensures none = generate_certificate-Ensures

  fingerprint_value-Ensures :
      (certificate : Text) → Ensures o (Certificate.certificate_fingerprint_value eng certificate)
  unfolding Certificate.certificate_fingerprint_value
  fingerprint_value-Ensures certificate = search ensures_rules

  pub rotate_certificate-Ensures :
      (pem : Option Text) → Ensures o (Certificate.rotate_certificate eng pem)
  unfolding Certificate.rotate_certificate
  rotate_certificate-Ensures pem =
      search
        (
          access_rules, choose_certificate-Ensures, fingerprint_value-Ensures,
          install_certificate-Later,
        )
        depth 12
