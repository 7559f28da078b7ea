-- ===== src/Registry/Builder.antt =====
-- `create_peer` of native/src/registry.rs, with the bind addresses and settings that it builds from.
pub mod Ports
use kestara_webrtc.Base.{
  ℕ, suc, zero, ◌+◌, ◌-◌, Bool, true, false, not, ◌&&◌, ◌||◌, Option, none, some, List, [], ◌∷◌,
  ◌++◌, map, Text, codes, ◌==◌, if◌then◌else◌, is_empty, concat,
}
use kestara_webrtc.Base.Strings.{decimal, text_eq, contains}
use kestara_webrtc.Errors.{failed, creating_peer, bind_failed, no_port_in_range}
use kestara_webrtc.Map
use kestara_webrtc.Registry.Types.{
  NetworkType, unspecified, udp4, udp6, tcp4, tcp6, TransportPolicy, all, relay, IpAddr, v4, v6,
  IceConfiguration, TransportConfiguration, PeerConfiguration,
}
use kestara_webrtc.Registry.State.{
  Setting, BuildRequest, build, RuntimeState, Engine, PeerEntry, Reply, good, bad,
}
use kestara_webrtc.Registry.State
use kestara_webrtc.Registry.Task.{Task, pure, fail, gets, modify, await, ◌>>=◌, ◌>>◌}
use kestara_webrtc.Registry.Access.{lock_registry, lock_certificate, next_handle}

-- `target.contains(&address)`
member : Text → List Text → Bool
member a [] = false
member a (x ∷ xs) = text_eq x a || member a xs

push_new : Text → List Text → List Text
unfolding member
push_new a xs = if member a xs then xs else xs ++ (a ∷ [])

any_v4 : ℕ → Text
any_v4 port = codes "0.0.0.0:" ++ decimal port

any_v6 : ℕ → Text
any_v6 port = codes "[::]:" ++ decimal port

add_address : ℕ → NetworkType → List Text × List Text → List Text × List Text
unfolding push_new any_v4 any_v6
add_address port unspecified (udp, tcp) = (udp, tcp)
add_address port udp4 (udp, tcp) = (push_new (any_v4 port) udp, tcp)
add_address port udp6 (udp, tcp) = (push_new (any_v6 port) udp, tcp)
add_address port tcp4 (udp, tcp) = (udp, push_new (any_v4 port) tcp)
add_address port tcp6 (udp, tcp) = (udp, push_new (any_v6 port) tcp)

add_addresses : ℕ → List NetworkType → List Text × List Text → List Text × List Text
unfolding add_address
add_addresses port [] found = found
add_addresses port (t ∷ types) found = add_addresses port types (add_address port t found)

-- `parse_ip` is `str::parse::<IpAddr>`.
append_port : (Text → Option IpAddr) → ℕ → Text → Text
append_port parse_ip port address = elim (parse_ip address) [
  | some (v4 _) ↦ address ++ (codes ":" ++ decimal port)
  | some (v6 _) ↦ codes "[" ++ (address ++ (codes "]:" ++ decimal port))
  | none ↦ address
]

bind_addresses :
    (Text → Option IpAddr) → TransportConfiguration → List NetworkType → ℕ → List Text × List Text
unfolding add_addresses append_port
bind_addresses parse_ip c types port =
    if is_empty c.udp_bind_addresses && is_empty c.tcp_bind_addresses
    then add_addresses port types ([], [])
    else (
      map (append_port parse_ip port) c.udp_bind_addresses,
      map (append_port parse_ip port) c.tcp_bind_addresses,
    )

when_some {ℓ} : {A : Type ℓ} → Option A → (A → Setting) → List Setting
when_some none f = []
when_some (some a) f = f a ∷ []

-- The setter calls in order.
setting_engine : PeerConfiguration → List Setting
unfolding when_some
setting_engine c = concat (
    (Setting.dtls_cipher_suites c.dtls.cipher_suites ∷ [])
    ∷ when_some c.dtls.answering_role Setting.answering_dtls_role
    ∷ (Setting.sdp_media_level_fingerprints c.dtls.media_level_fingerprints
        ∷ Setting.dtls_replay_protection_window c.dtls.replay_protection_window
        ∷ Setting.receive_mtu c.transport.receive_mtu
        ∷ Setting.ice_timeouts ice.disconnected_timeout ice.failed_timeout ice.keep_alive_interval
        ∷ Setting.ice_connection_attempts ice.check_interval ice.max_binding_requests
        ∷ Setting.host_acceptance_min_wait ice.host_acceptance_min_wait
        ∷ Setting.srflx_acceptance_min_wait ice.server_reflexive_acceptance_min_wait
        ∷ Setting.prflx_acceptance_min_wait ice.peer_reflexive_acceptance_min_wait
        ∷ Setting.relay_acceptance_min_wait ice.relay_acceptance_min_wait
        ∷ Setting.network_types ice.network_types
        ∷ Setting.multicast_dns_mode ice.mdns_mode
        ∷ Setting.include_loopback_candidate ice.include_loopback_candidate
        ∷ [])
    ∷ when_some ice.mdns_local_name Setting.multicast_dns_local_name
    ∷ (Setting.multicast_dns_local_ip ice.mdns_local_address ∷ [])
    ∷ when_some ice.credentials (λ p. Setting.ice_credentials p.0 p.1)
    ∷ when_some ice.mdns_query_timeout (λ t. Setting.multicast_dns_timeout (some t))
    ∷ (Setting.lite ice.lite
        ∷ Setting.discard_local_candidates_during_ice_restart
            ice.discard_local_candidates_on_restart
        ∷ [])
    ∷ when_some ice.nat_mapping (λ p. Setting.nat_1to1_ips p.0 p.1)
    ∷ (Setting.sctp_max_message_size c.sctp.maximum_message_size
        ∷ Setting.sctp_max_receive_buffer_size c.sctp.receive_buffer_size
        ∷ [])
    ∷ [])
  where
    ice : IceConfiguration
    ice = c.ice

abbrev pub policy_of : Bool → TransportPolicy
policy_of relay_only = if relay_only then relay else all

-- `count` ports from `low` on
abbrev pub ports_from : ℕ → ℕ → List ℕ
ports_from low zero = []
ports_from low (suc count) = low ∷ ports_from (low + 1) count

-- `vec![0]`, or the inclusive range, which is empty when the bounds are crossed
unfoldable pub port_range : ℕ → ℕ → List ℕ
port_range low high = if low == 0 then 0 ∷ [] else ports_from low (high + 1 - low)

unfoldable pub build_request : Engine → PeerConfiguration → ℕ → Text → Option ℕ → ℕ → BuildRequest
unfolding bind_addresses setting_engine
build_request eng c handle certificate mux port = record {
  handler = handle;
  ice_servers = c.ice_servers;
  policy = policy_of c.relay_only;
  certificates = certificate ∷ [];
  candidate_pool_size = c.ice.candidate_pool_size;
  settings = setting_engine c;
  udp_addresses = (bind_addresses eng.parse_ip c.transport c.ice.network_types port).0;
  tcp_addresses = (bind_addresses eng.parse_ip c.transport c.ice.network_types port).1;
  send_buffer_limit = c.sctp.send_buffer_limit;
  socket_mux = mux;
}

-- `message.contains("no udp_sockets or tcp_listeners available")`
unfoldable pub is_bind_error : Text → Bool
is_bind_error message = contains message (codes "no udp_sockets or tcp_listeners available")

-- What follows a `build`: `next` is the rest of the loop, given the last bind error.
unfoldable pub after_build :
    ℕ
    → Option Text
    → (Option Text → Task (Option ℕ × Option Text))
    → Reply ℕ
    → Task (Option ℕ × Option Text)
after_build port last next (good peer) = pure (some peer, last)
after_build port last next (bad text) =
    if port == 0 || not (is_bind_error text)
    then fail (failed creating_peer text)
    else next (some text)

-- The `for` loop: the peer if one was built, and the last bind error.
unfoldable pub try_ports :
    Engine → PeerConfiguration → ℕ → List ℕ → Option Text → Task (Option ℕ × Option Text)
try_ports eng c handle [] last = pure (none, last)
try_ports eng c handle (port ∷ ports) last = do
  certificate ← lock_certificate
  mux ← gets (λ s. s.socket_mux)
  reply ← await eng (build (build_request eng c handle certificate mux port)) eng.built
  after_build port last (try_ports eng c handle ports) reply

abbrev pub or_unknown : Option Text → Text
or_unknown none = codes "unknown bind error"
or_unknown (some text) = text

-- `peer.ok_or_else(…)?`
unfoldable pub built_peer : PeerConfiguration → Option ℕ × Option Text → Task ℕ
built_peer c (some peer, last) = pure peer
built_peer c (none, last) =
    if c.min_port == 0
    then fail (bind_failed (or_unknown last))
    else fail (no_port_in_range c.min_port c.max_port (or_unknown last))

unfoldable pub add_peer : ℕ → PeerEntry → RuntimeState → RuntimeState
add_peer handle entry s = record s { peers = Map.insert handle entry s.peers }

unfoldable pub create_peer : Engine → PeerConfiguration → Task ℕ
create_peer eng c = do
  handle ← next_handle
  found ← try_ports eng c handle (port_range c.min_port c.max_port) none
  peer ← built_peer c found
  lock_registry
  modify (
      add_peer handle
        (record { peer = peer; receive_queue_capacity = c.sctp.receive_queue_capacity }))
  pure handle
