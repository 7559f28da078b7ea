-- ===== src/Bridge/Configuration.antt =====
-- `peer_configuration` of native/src/c_bridge.rs: the checks of a peer's configuration. The fields are
-- those that the JSON decoder has read, with the ranges of their types.
use kestara_webrtc.Base.{
  ℕ, zero, suc, Bool, true, false, not, ◌||◌, Option, none, some, List, [], ◌∷◌, ◌++◌, Text, codes,
  ℤ, pos, ltb, ◌==◌, if◌then◌else◌,
}
use kestara_webrtc.Registry.Types.{
  MdnsMode, disabled, query_only, query_and_gather, CandidateType, host, srflx, DtlsRole, client,
  server, IpAddr, IceServer, IceConfiguration, SctpConfiguration, DtlsConfiguration,
  PeerConfiguration,
}
use kestara_webrtc.Bridge.Checked.{Checked, valid, invalid, ◌>>=◌}
use kestara_webrtc.Bridge.Arguments.{
  optional_duration, positive_u32, port, optional_u16, network_types, cipher_suites,
}

pub record NatMappingDto : Type 0 where
  pub addresses : List Text
  pub mapping_type : ℤ

pub record PeerDto : Type 0 where
  pub ice_servers : List IceServer
  pub min_port : ℤ
  pub max_port : ℤ
  pub relay_only : Bool
  pub disconnected_timeout_millis : ℤ
  pub failed_timeout_millis : ℤ
  pub keep_alive_interval_millis : ℤ
  pub check_interval_millis : ℤ
  pub max_binding_requests : ℤ
  pub host_acceptance_min_wait_millis : ℤ
  pub server_reflexive_acceptance_min_wait_millis : ℤ
  pub peer_reflexive_acceptance_min_wait_millis : ℤ
  pub relay_acceptance_min_wait_millis : ℤ
  pub network_type_mask : ℤ
  pub mdns_mode : ℤ
  pub mdns_query_timeout_millis : ℤ
  pub ice_lite : Bool
  pub nat_mapping : Option NatMappingDto
  pub discard_local_candidates_on_restart : Bool
  pub candidate_pool_size : ℕ
  pub include_loopback_candidate : Bool
  pub mdns_local_name : Option Text
  pub mdns_local_address : Option Text
  pub credentials : Option (Text × Text)
  pub sctp_send_buffer_limit : ℕ
  pub sctp_receive_buffer_size : ℤ
  pub sctp_maximum_message_size : ℤ
  pub receive_queue_capacity : ℕ
  pub dtls_answering_role : ℤ
  pub media_level_fingerprints : Bool
  pub dtls_replay_protection_window : ℕ
  pub dtls_cipher_suite_mask : ℤ
  pub udp_bind_addresses : List Text
  pub tcp_bind_addresses : List Text
  pub receive_mtu : ℕ

-- `a != b`
unfoldable pub differ : Bool → Bool → Bool
differ true b = not b
differ false b = b

-- The two ports are both 0, or neither is, and are in order.
unfoldable pub checked_ports : ℤ → ℤ → Checked (ℕ × ℕ)
unfolding differ
checked_ports low high = do
  min_port ← port low (codes "minimum")
  max_port ← port high (codes "maximum")
  if differ (min_port == 0) (max_port == 0) || ltb max_port min_port
      then invalid (codes "Invalid UDP port range")
      else valid (min_port, max_port)

unfoldable pub checked_mdns_mode : ℤ → Checked MdnsMode
checked_mdns_mode (pos zero) = valid disabled
checked_mdns_mode (pos (suc zero)) = valid query_only
checked_mdns_mode (pos (suc (suc zero))) = valid query_and_gather
checked_mdns_mode _ = invalid (codes "Invalid ICE mDNS mode")

unfoldable pub mapping_of : List Text → ℤ → Checked (Option (List Text × CandidateType))
mapping_of [] kind = invalid (codes "Invalid ICE NAT mapping")
mapping_of (a ∷ more) (pos zero) = valid (some (a ∷ more, host))
mapping_of (a ∷ more) (pos (suc zero)) = valid (some (a ∷ more, srflx))
mapping_of (a ∷ more) _ = invalid (codes "Invalid ICE NAT mapping")

unfoldable pub checked_nat_mapping :
    Option NatMappingDto → Checked (Option (List Text × CandidateType))
unfolding mapping_of
checked_nat_mapping none = valid none
checked_nat_mapping (some m) = mapping_of m.addresses m.mapping_type

-- `parse_ip` is `str::parse::<IpAddr>`, with the text of its error.
unfoldable pub checked_address : (Text → Checked IpAddr) → Option Text → Checked (Option IpAddr)
checked_address parse_ip none = valid none
checked_address parse_ip (some address) = elim (parse_ip address) [
  | valid ip ↦ valid (some ip)
  | invalid e ↦ invalid (codes "Invalid mDNS local address: " ++ e)
]

unfoldable pub checked_role : ℤ → Checked (Option DtlsRole)
checked_role (pos zero) = valid none
checked_role (pos (suc zero)) = valid (some client)
checked_role (pos (suc (suc zero))) = valid (some server)
checked_role _ = invalid (codes "Invalid DTLS answering role")

unfoldable pub checked_ice : (Text → Checked IpAddr) → PeerDto → Checked IceConfiguration
unfolding checked_mdns_mode checked_nat_mapping checked_address
checked_ice parse_ip value = do
  mode ← checked_mdns_mode value.mdns_mode
  mapping ← checked_nat_mapping value.nat_mapping
  address ← checked_address parse_ip value.mdns_local_address
  disconnected ←
      optional_duration value.disconnected_timeout_millis (codes "ICE disconnected timeout")
  failed_after ← optional_duration value.failed_timeout_millis (codes "ICE failed timeout")
  keep_alive ← optional_duration value.keep_alive_interval_millis (codes "ICE keep-alive interval")
  check ← optional_duration value.check_interval_millis (codes "ICE check interval")
  requests ← optional_u16 value.max_binding_requests (codes "maximum ICE binding requests")
  host_wait ←
      optional_duration value.host_acceptance_min_wait_millis
        (codes "host candidate acceptance wait")
  server_wait ←
      optional_duration value.server_reflexive_acceptance_min_wait_millis
        (codes "server-reflexive candidate acceptance wait")
  peer_wait ←
      optional_duration value.peer_reflexive_acceptance_min_wait_millis
        (codes "peer-reflexive candidate acceptance wait")
  relay_wait ←
      optional_duration value.relay_acceptance_min_wait_millis
        (codes "relay candidate acceptance wait")
  types ← network_types value.network_type_mask
  query ← optional_duration value.mdns_query_timeout_millis (codes "mDNS query timeout")
  valid (record {
    disconnected_timeout = disconnected;
    failed_timeout = failed_after;
    keep_alive_interval = keep_alive;
    check_interval = check;
    max_binding_requests = requests;
    host_acceptance_min_wait = host_wait;
    server_reflexive_acceptance_min_wait = server_wait;
    peer_reflexive_acceptance_min_wait = peer_wait;
    relay_acceptance_min_wait = relay_wait;
    network_types = types;
    mdns_mode = mode;
    mdns_query_timeout = query;
    lite = value.ice_lite;
    nat_mapping = mapping;
    discard_local_candidates_on_restart = value.discard_local_candidates_on_restart;
    candidate_pool_size = value.candidate_pool_size;
    include_loopback_candidate = value.include_loopback_candidate;
    mdns_local_name = value.mdns_local_name;
    mdns_local_address = address;
    credentials = value.credentials;
  })

unfoldable pub checked_sctp : PeerDto → Checked SctpConfiguration
checked_sctp value = do
  size ← positive_u32 value.sctp_receive_buffer_size (codes "SCTP receive buffer size")
  maximum ← positive_u32 value.sctp_maximum_message_size (codes "SCTP maximum message size")
  valid (record {
    send_buffer_limit = value.sctp_send_buffer_limit;
    receive_buffer_size = size;
    maximum_message_size = maximum;
    receive_queue_capacity = value.receive_queue_capacity;
  })

unfoldable pub checked_dtls : PeerDto → Checked DtlsConfiguration
unfolding checked_role
checked_dtls value = do
  role ← checked_role value.dtls_answering_role
  suites ← cipher_suites value.dtls_cipher_suite_mask
  valid (record {
    answering_role = role;
    media_level_fingerprints = value.media_level_fingerprints;
    replay_protection_window = value.dtls_replay_protection_window;
    cipher_suites = suites;
  })

unfoldable pub peer_configuration : (Text → Checked IpAddr) → PeerDto → Checked PeerConfiguration
peer_configuration parse_ip value = do
  (min_port, max_port) ← checked_ports value.min_port value.max_port
  ice ← checked_ice parse_ip value
  sctp ← checked_sctp value
  dtls ← checked_dtls value
  valid (record {
    ice_servers = value.ice_servers;
    min_port = min_port;
    max_port = max_port;
    relay_only = value.relay_only;
    ice = ice;
    sctp = sctp;
    dtls = dtls;
    transport = record {
      udp_bind_addresses = value.udp_bind_addresses;
      tcp_bind_addresses = value.tcp_bind_addresses;
      receive_mtu = value.receive_mtu;
    };
  })
