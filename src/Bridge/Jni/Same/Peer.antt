-- ===== src/Bridge/Jni/Same/Peer.antt =====
-- The configuration of a peer that native/src/bridge.rs accepts is accepted by native/src/c_bridge.rs, and
-- is the same.
use kestara_webrtc.Base.{ℕ, ◌<◌, ◌≤◌, ◌≡◌, refl, Text}
use kestara_webrtc.Registry.Types.{IpAddr, PeerConfiguration}
use kestara_webrtc.Bridge.Checked.{Checked, valid, Accepts, accepted_one, ◌>>=◌ as and_then}
use kestara_webrtc.Bridge.Checked.Steps.{accepted, ◌>>=◌}
use kestara_webrtc.Bridge.Arguments
use kestara_webrtc.Bridge.Arguments.{
  optional_duration, positive_u32, optional_u16, network_types, cipher_suites,
}
use kestara_webrtc.Bridge.Configuration.{
  checked_ice, checked_sctp, checked_dtls, peer_configuration,
}
use kestara_webrtc.Bridge.Ports.{IsRange, checked_ports-Accepts}
use kestara_webrtc.Bridge.Jni.Peer.{PeerTexts, PeerNumbers, create_peer_configuration}
use kestara_webrtc.Bridge.Jni.Requests.{dto_of}
use kestara_webrtc.Bridge.Jni.Same.Fields.{
  not_negative_size, positive_size_size, candidate_pool_size, relay_policy_is, credentials_same,
  nat_mapping_same, positive_size_bound, positive_u32_bound, candidate_pool_bound,
  check_sizes_bound,
}

-- The numbers of a configuration that is accepted.
abbrev pub Within : PeerConfiguration → Type 0
Within c =
    IsRange c.min_port c.max_port
    × (0 < c.sctp.maximum_message_size)
    × ((c.sctp.maximum_message_size ≤ 262144)
        × (1500 ≤ c.sctp.receive_buffer_size)
        × (c.sctp.maximum_message_size ≤ c.sctp.receive_buffer_size))
    × (0 < c.sctp.receive_queue_capacity)
    × (0 < c.dtls.replay_protection_window)
    × (c.ice.candidate_pool_size ≤ 1)

module _ (parse_ip : Text → Checked IpAddr) (s : PeerTexts) (n : PeerNumbers) where
  abbrev pub Matches : ℕ × PeerConfiguration → Type 0
  Matches p =
      (Arguments.timeout n.timeout_millis ≡ valid p.0)
      × (peer_configuration parse_ip (dto_of s n) ≡ valid p.1)

  abbrev pub Passes : ℕ × PeerConfiguration → Type 0
  Passes p = Matches p × Within p.1

  pub create_peer_configuration-Passes : Accepts Passes (create_peer_configuration parse_ip s n)
  unfolding create_peer_configuration peer_configuration checked_ice checked_sctp checked_dtls
  create_peer_configuration-Passes = do
    (u0, x0) ← accepted
    (ports, e0) ← accepted
    (relay, e1) ← accepted
    (types, e2) ← accepted
    (mode, e3) ← accepted
    (mapping, e4) ← accepted
    (size, e5) ← accepted
    (maximum, e6) ← accepted
    (capacity, e7) ← accepted
    (u1, x1) ← accepted
    (millis, e8) ← accepted
    (role, e9) ← accepted
    (window, e10) ← accepted
    (mtu, e11) ← accepted
    (address, e12) ← accepted
    (credentials, e13) ← accepted
    (disconnected, e14) ← accepted
    (failed_after, e15) ← accepted
    (keep_alive, e16) ← accepted
    (check, e17) ← accepted
    (requests, e18) ← accepted
    (host_wait, e19) ← accepted
    (server_wait, e20) ← accepted
    (peer_wait, e21) ← accepted
    (relay_wait, e22) ← accepted
    (query, e23) ← accepted
    (pool, e24) ← accepted
    (limit, e25) ← accepted
    (suites, e26) ← accepted
    (
      (
        e8,
        unfold and_then in
            rw
              (
                e0,
                e3,
                nat_mapping_same s.nat_addresses n.nat_mapping_type mapping e4,
                e12,
                e14,
                e15,
                e16,
                e17,
                e18,
                e19,
                e20,
                e21,
                e22,
                e2,
                e23,
                e5,
                e6,
                e9,
                e26,
                relay_policy_is _ relay e1,
                candidate_pool_size _ pool e24,
                credentials_same _ _ credentials e13,
                not_negative_size _ _ limit e25,
                not_negative_size _ _ mtu e11,
                positive_size_size _ _ capacity e7,
                positive_size_size _ _ window e10,
              )
              refl,
      ),
      (
        accepted_one (λ p. IsRange p.0 p.1) (checked_ports-Accepts n.min_port n.max_port) e0,
        positive_u32_bound _ _ maximum e6,
        check_sizes_bound size maximum u1 x1,
        positive_size_bound _ _ capacity e7,
        positive_size_bound _ _ window e10,
        candidate_pool_bound _ pool e24,
      ),
    )

-- What `nativeSubmitCreatePeer` accepts of the sizes of a peer: no message is longer than 262144 bytes or
-- than the receive buffer, which has at least 1500 bytes, there is room for one received message and one
-- replayed packet at least, at most one candidate is pooled, and the ports are none or a range from 1 to
-- 65535 whose bounds are not crossed.
pub accepted_sizes :
    (parse_ip : Text → Checked IpAddr) (s : PeerTexts) (n : PeerNumbers) (t : ℕ)
    (c : PeerConfiguration)
    → create_peer_configuration parse_ip s n ≡ valid (t, c)
    → Within c
accepted_sizes parse_ip s n t c e =
    (accepted_one (Passes parse_ip s n) (create_peer_configuration-Passes parse_ip s n) e).1
