-- ===== src/Bridge/Jni/Peer.antt =====
-- `nativeSubmitCreatePeer` of native/src/bridge.rs: the arguments that describe a peer, and the checks of
-- them in the code's order.
use kestara_webrtc.Base.{
  ℕ, zero, suc, ◌*◌, ◌||◌, Bool, Option, none, some, List, [], ◌∷◌, Text, codes, ℤ, pos, negsuc,
  ltb, ◌==◌,
}
use kestara_webrtc.Registry.Types.{CandidateType, host, srflx, IpAddr, PeerConfiguration}
use kestara_webrtc.Runtime.Command.{Command}
use kestara_webrtc.Bridge.Checked.{Checked, valid, invalid, ◌>>=◌, ◌>>◌}
use kestara_webrtc.Bridge.Arguments
use kestara_webrtc.Bridge.Arguments.{
  optional_duration, positive_u32, optional_u16, network_types, cipher_suites, handle_from_jlong,
}
use kestara_webrtc.Bridge.Configuration.{
  checked_ports, checked_mdns_mode, checked_address, checked_role,
}
use kestara_webrtc.Bridge.Request.{Readers, submits}
use kestara_webrtc.Bridge.Jni.Values.{
  Native, returns, after, JString, JArray, Call, read_string, read_string_array, operation_result,
  non_empty,
}
use kestara_webrtc.Bridge.Jni.Calls.{refuse_when, check_servers, zip_servers, relay_policy}

-- The strings and the arrays of strings, before or after they are read.
pub record PeerStrings (S A : Type 0) : Type 0 where
  pub urls : A
  pub usernames : A
  pub credentials : A
  pub nat_addresses : A
  pub mdns_local_name : S
  pub mdns_local_address : S
  pub ice_username_fragment : S
  pub ice_password : S
  pub udp_bind_addresses : A
  pub tcp_bind_addresses : A

pub record PeerNumbers : Type 0 where
  pub min_port : ℤ
  pub max_port : ℤ
  pub ice_transport_policy : ℤ
  pub disconnected_timeout_millis : ℤ
  pub failed_timeout_millis : ℤ
  pub keep_alive_interval_millis : ℤ
  pub check_interval_millis : ℤ
  pub max_binding_requests : ℤ
  pub host_acceptance_min_wait_millis : ℤ
  pub server_reflexive_acceptance_min_wait_millis : ℤ
  pub peer_reflexive_acceptance_min_wait_millis : ℤ
  pub relay_acceptance_min_wait_millis : ℤ
  pub network_type_mask : ℤ
  pub mdns_mode : ℤ
  pub mdns_query_timeout_millis : ℤ
  pub ice_lite : Bool
  pub nat_mapping_type : ℤ
  pub discard_local_candidates_on_restart : Bool
  pub candidate_pool_size : ℤ
  pub include_loopback_candidate : Bool
  pub sctp_send_buffer_limit : ℤ
  pub sctp_receive_buffer_size : ℤ
  pub sctp_maximum_message_size : ℤ
  pub data_channel_receive_queue_capacity : ℤ
  pub dtls_answering_role : ℤ
  pub media_level_fingerprints : Bool
  pub dtls_replay_protection_window : ℤ
  pub dtls_cipher_suite_mask : ℤ
  pub receive_mtu : ℤ
  pub timeout_millis : ℤ

abbrev pub PeerTexts : Type 0
PeerTexts = PeerStrings Text (List Text)

unfoldable pub read_peer_strings : PeerStrings JString JArray → Native PeerTexts
read_peer_strings s = after (read_string_array s.urls) λ urls.
    after (read_string_array s.usernames) λ usernames.
      after (read_string_array s.credentials) λ credentials.
        after (read_string_array s.nat_addresses) λ nat_addresses.
          after (read_string s.mdns_local_name) λ name.
            after (read_string s.mdns_local_address) λ address.
              after (read_string s.ice_username_fragment) λ fragment.
                after (read_string s.ice_password) λ password.
                  after (read_string_array s.udp_bind_addresses) λ udp.
                    after (read_string_array s.tcp_bind_addresses) λ tcp. returns (record {
                      urls = urls;
                      usernames = usernames;
                      credentials = credentials;
                      nat_addresses = nat_addresses;
                      mdns_local_name = name;
                      mdns_local_address = address;
                      ice_username_fragment = fragment;
                      ice_password = password;
                      udp_bind_addresses = udp;
                      tcp_bind_addresses = tcp;
                    })

unfoldable pub nat_mapping : List Text → ℤ → Checked (Option (List Text × CandidateType))
nat_mapping [] (negsuc zero) = valid none
nat_mapping (a ∷ more) (pos zero) = valid (some (a ∷ more, host))
nat_mapping (a ∷ more) (pos (suc zero)) = valid (some (a ∷ more, srflx))
nat_mapping addresses kind = invalid (codes "Invalid ICE NAT mapping")

-- `usize::try_from(value)`
unfoldable pub not_negative : ℤ → Text → Checked ℕ
not_negative (pos n) message = valid n
not_negative (negsuc n) message = invalid message

-- `usize::try_from(value)`, and 0 is refused with the same message.
unfoldable pub positive_size : ℤ → Text → Checked ℕ
positive_size value message = do
  n ← not_negative value message
  refuse_when (n == 0) message
  valid n

unfoldable pub candidate_pool : ℤ → Checked ℕ
candidate_pool (pos zero) = valid 0
candidate_pool (pos (suc zero)) = valid 1
candidate_pool _ = invalid (codes "ICE candidate pool size must be 0 or 1")

unfoldable pub ice_credentials : Text → Text → Checked (Option (Text × Text))
ice_credentials [] [] = valid none
ice_credentials (f ∷ fs) (p ∷ ps) = valid (some (f ∷ fs, p ∷ ps))
ice_credentials _ _ = invalid (codes "ICE username fragment and password must be set together")

-- What the sizes of the SCTP transport have to be.
unfoldable pub check_sizes : (receive_buffer maximum_message : ℕ) → Checked (Unit {0})
check_sizes receive_buffer maximum_message = do
  refuse_when (ltb (256 * 1024) maximum_message)
      (codes "SCTP maximum message size must not exceed 262144")
  refuse_when (ltb receive_buffer 1500 || ltb receive_buffer maximum_message)
      (codes "SCTP receive buffer size must cover the maximum message size")

-- `parse_ip` is `str::parse::<IpAddr>`, with the text of its error. The timeout is the operation's.
unfoldable pub create_peer_configuration :
    (Text → Checked IpAddr) → PeerTexts → PeerNumbers → Checked (ℕ × PeerConfiguration)
create_peer_configuration parse_ip s n = do
  check_servers s.urls s.usernames s.credentials
  (min_port, max_port) ← checked_ports n.min_port n.max_port
  relay_only ← relay_policy n.ice_transport_policy
  types ← network_types n.network_type_mask
  mode ← checked_mdns_mode n.mdns_mode
  mapping ← nat_mapping s.nat_addresses n.nat_mapping_type
  size ← positive_u32 n.sctp_receive_buffer_size (codes "SCTP receive buffer size")
  maximum ← positive_u32 n.sctp_maximum_message_size (codes "SCTP maximum message size")
  capacity ←
      positive_size n.data_channel_receive_queue_capacity
        (codes "DataChannel receive queue capacity must be positive")
  check_sizes size maximum
  timeout ← Arguments.timeout n.timeout_millis
  role ← checked_role n.dtls_answering_role
  window ←
      positive_size n.dtls_replay_protection_window
        (codes "DTLS replay protection window must be positive")
  mtu ← not_negative n.receive_mtu (codes "Receive MTU must not be negative")
  address ← checked_address parse_ip (non_empty s.mdns_local_address)
  credentials ← ice_credentials s.ice_username_fragment s.ice_password
  disconnected ← optional_duration n.disconnected_timeout_millis (codes "ICE disconnected timeout")
  failed_after ← optional_duration n.failed_timeout_millis (codes "ICE failed timeout")
  keep_alive ← optional_duration n.keep_alive_interval_millis (codes "ICE keep-alive interval")
  check ← optional_duration n.check_interval_millis (codes "ICE check interval")
  requests ← optional_u16 n.max_binding_requests (codes "maximum ICE binding requests")
  host_wait ←
      optional_duration n.host_acceptance_min_wait_millis (codes "host candidate acceptance wait")
  server_wait ←
      optional_duration n.server_reflexive_acceptance_min_wait_millis
        (codes "server-reflexive candidate acceptance wait")
  peer_wait ←
      optional_duration n.peer_reflexive_acceptance_min_wait_millis
        (codes "peer-reflexive candidate acceptance wait")
  relay_wait ←
      optional_duration n.relay_acceptance_min_wait_millis (codes "relay candidate acceptance wait")
  query ← optional_duration n.mdns_query_timeout_millis (codes "mDNS query timeout")
  pool ← candidate_pool n.candidate_pool_size
  limit ←
      not_negative n.sctp_send_buffer_limit (codes "SCTP send buffer limit must not be negative")
  suites ← cipher_suites n.dtls_cipher_suite_mask
  valid (
    timeout,
    record {
      ice_servers = zip_servers s.urls s.usernames s.credentials;
      min_port = min_port;
      max_port = max_port;
      relay_only = relay_only;
      ice = record {
        disconnected_timeout = disconnected;
        failed_timeout = failed_after;
        keep_alive_interval = keep_alive;
        check_interval = check;
        max_binding_requests = requests;
        host_acceptance_min_wait = host_wait;
        server_reflexive_acceptance_min_wait = server_wait;
        peer_reflexive_acceptance_min_wait = peer_wait;
        relay_acceptance_min_wait = relay_wait;
        network_types = types;
        mdns_mode = mode;
        mdns_query_timeout = query;
        lite = n.ice_lite;
        nat_mapping = mapping;
        discard_local_candidates_on_restart = n.discard_local_candidates_on_restart;
        candidate_pool_size = pool;
        include_loopback_candidate = n.include_loopback_candidate;
        mdns_local_name = non_empty s.mdns_local_name;
        mdns_local_address = address;
        credentials = credentials;
      };
      sctp = record {
        send_buffer_limit = limit;
        receive_buffer_size = size;
        maximum_message_size = maximum;
        receive_queue_capacity = capacity;
      };
      dtls = record {
        answering_role = role;
        media_level_fingerprints = n.media_level_fingerprints;
        replay_protection_window = window;
        cipher_suites = suites;
      };
      transport = record {
        udp_bind_addresses = s.udp_bind_addresses;
        tcp_bind_addresses = s.tcp_bind_addresses;
        receive_mtu = mtu;
      };
    },
  )

unfoldable pub submit_create_peer :
    Readers → (runtime operation : ℤ) → PeerStrings JString JArray → PeerNumbers → Native Call
submit_create_peer readers runtime operation strings numbers =
    after (read_peer_strings strings) λ texts. operation_result (do
      r ← handle_from_jlong runtime
      o ← handle_from_jlong operation
      (timeout, configuration) ← create_peer_configuration readers.address texts numbers
      valid (record { runtime = r; what = submits (Command.create_peer o timeout configuration) }))
