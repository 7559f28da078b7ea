-- ===== src/Bridge/Jni/Requests.antt =====
-- The request of native/src/c_bridge.rs with the arguments of a native method of native/src/bridge.rs, as
-- Kotlin/Native makes it.
use kestara_webrtc.Base.{
  ℕ, zero, suc, ◌^◌, ◌≡◌, Bool, true, false, Option, none, some, List, [], ◌∷◌, Text, ℤ, pos,
  negsuc, ltb,
}
use kestara_webrtc.Bridge.Checked.{valid}
use kestara_webrtc.Bridge.Configuration.{PeerDto, NatMappingDto}
use kestara_webrtc.Bridge.Request.{Readers, Request, Input, null, at, DataChannelDto}
use kestara_webrtc.Bridge.Jni.Values.{
  returns, JString, java_string, read_string, read_string_array, non_empty,
}
use kestara_webrtc.Bridge.Jni.Calls.{zip_servers}
use kestara_webrtc.Bridge.Jni.Peer.{read_peer_strings, PeerTexts, PeerNumbers}
use kestara_webrtc.Bridge.Jni.Methods.{NativeCall}
use kestara_webrtc.Bridge.Jni.Same.{to_u64, IsText}

-- A request for a command on `target` with nothing else in it.
abbrev pub bare : (kind : ℕ) (operation target timeout : ℤ) → Request
bare kind operation target timeout = record {
  operation = to_u64 operation;
  kind = pos kind;
  target = to_u64 target;
  timeout_millis = timeout;
  text = null 0;
  secondary_text = null 0;
  number = pos 0;
  secondary_number = pos 0;
  data_bytes = null 0;
  configuration = null 0;
}

abbrev pub text_input : JString → Input
text_input (java_string text) = at text
text_input _ = null 0

-- An empty string stands for no certificate.
abbrev pub pem_input : JString → Input
pem_input (java_string (c ∷ cs)) = at (c ∷ cs)
pem_input _ = null 0

abbrev pub bytes_input : Option (List ℕ) → Input
bytes_input (some bytes) = at bytes
bytes_input none = null 0

-- The request for what a native method asks for. `json` is its configuration.
abbrev pub c_request : (json : List ℕ) → NativeCall → Request
c_request json (NativeCall.create_peer r o s n) = record (bare 1 o (pos 0) n.timeout_millis) {
  configuration = at json;
}
c_request json (NativeCall.restart_ice r o p t) = bare 2 o p t
c_request json (NativeCall.set_configuration r o p us ns cs k t) = record (bare 3 o p t) {
  configuration = at json;
}
c_request json (NativeCall.create_description r o p k t) = record (bare 4 o p t) { number = k }
c_request json (NativeCall.set_local_description r o p sdp k t) = record (bare 5 o p t) {
  text = text_input sdp;
  number = k;
}
c_request json (NativeCall.set_remote_description r o p sdp k t) = record (bare 6 o p t) {
  text = text_input sdp;
  number = k;
}
c_request json (NativeCall.add_ice_candidate r o p c m i t) = record (bare 7 o p t) {
  text = text_input c;
  secondary_text = text_input m;
  number = i;
}
c_request json (NativeCall.create_data_channel r o p l ordered a b q n t) = record (bare 8 o p t) {
  text = text_input l;
  configuration = at json;
}
c_request json (NativeCall.send_text r o c x t) = record (bare 9 o c t) { text = text_input x }
c_request json (NativeCall.send_binary r o c x t) = record (bare 10 o c t) {
  data_bytes = bytes_input x;
}
c_request json (NativeCall.try_send_text r o c x t) = record (bare 11 o c t) { text = text_input x }
c_request json (NativeCall.try_send_binary r o c x t) = record (bare 12 o c t) {
  data_bytes = bytes_input x;
}
c_request json (NativeCall.data_channel_writable r o c t) = bare 13 o c t
c_request json (NativeCall.data_channel_outstanding_bytes r o c t) = bare 14 o c t
c_request json (NativeCall.set_data_channel_thresholds r o c l h t) = record (bare 15 o c t) {
  number = l;
  secondary_number = h;
}
c_request json (NativeCall.get_stats r o p t) = bare 16 o p t
c_request json (NativeCall.rotate_certificate r o pem t) = record (bare 17 o (pos 0) t) {
  text = pem_input pem;
}
c_request json (NativeCall.close_data_channel r o c t) = bare 18 o c t
c_request json (NativeCall.close_peer r o p t) = bare 19 o p t
c_request json (NativeCall.close_runtime r o t) = bare 20 o (pos 0) t

-- `jint`
abbrev pub IsInt : ℤ → Type 0
IsInt (pos n) = ltb n (2 ^ 31) ≡ true
IsInt (negsuc n) = ltb n (2 ^ 31) ≡ true

-- A string of Rust holds UTF-8.
abbrev pub HoldsText : JString → Type 0
HoldsText (java_string text) = IsText text
HoldsText _ = Unit

abbrev pub to_size : ℤ → ℕ
to_size (pos n) = n
to_size (negsuc n) = 0

-- A mapping of type -1 is none.
abbrev pub nat_dto : List Text → ℤ → Option NatMappingDto
nat_dto addresses (negsuc zero) = none
nat_dto addresses (negsuc (suc n)) =
    some (record { addresses = addresses; mapping_type = negsuc (suc n) })
nat_dto addresses (pos n) = some (record { addresses = addresses; mapping_type = pos n })

abbrev pub credentials_dto : Text → Text → Option (Text × Text)
credentials_dto [] password = none
credentials_dto (c ∷ cs) password = some (c ∷ cs, password)

abbrev pub is_one : ℤ → Bool
is_one (pos (suc zero)) = true
is_one _ = false

-- The configuration of a peer as a DTO of the C ABI.
abbrev pub dto_of : PeerTexts → PeerNumbers → PeerDto
dto_of s n = record {
  ice_servers = zip_servers s.urls s.usernames s.credentials;
  min_port = n.min_port;
  max_port = n.max_port;
  relay_only = is_one n.ice_transport_policy;
  disconnected_timeout_millis = n.disconnected_timeout_millis;
  failed_timeout_millis = n.failed_timeout_millis;
  keep_alive_interval_millis = n.keep_alive_interval_millis;
  check_interval_millis = n.check_interval_millis;
  max_binding_requests = n.max_binding_requests;
  host_acceptance_min_wait_millis = n.host_acceptance_min_wait_millis;
  server_reflexive_acceptance_min_wait_millis = n.server_reflexive_acceptance_min_wait_millis;
  peer_reflexive_acceptance_min_wait_millis = n.peer_reflexive_acceptance_min_wait_millis;
  relay_acceptance_min_wait_millis = n.relay_acceptance_min_wait_millis;
  network_type_mask = n.network_type_mask;
  mdns_mode = n.mdns_mode;
  mdns_query_timeout_millis = n.mdns_query_timeout_millis;
  ice_lite = n.ice_lite;
  nat_mapping = nat_dto s.nat_addresses n.nat_mapping_type;
  discard_local_candidates_on_restart = n.discard_local_candidates_on_restart;
  candidate_pool_size = to_size n.candidate_pool_size;
  include_loopback_candidate = n.include_loopback_candidate;
  mdns_local_name = non_empty s.mdns_local_name;
  mdns_local_address = non_empty s.mdns_local_address;
  credentials = credentials_dto s.ice_username_fragment s.ice_password;
  sctp_send_buffer_limit = to_size n.sctp_send_buffer_limit;
  sctp_receive_buffer_size = n.sctp_receive_buffer_size;
  sctp_maximum_message_size = n.sctp_maximum_message_size;
  receive_queue_capacity = to_size n.data_channel_receive_queue_capacity;
  dtls_answering_role = n.dtls_answering_role;
  media_level_fingerprints = n.media_level_fingerprints;
  dtls_replay_protection_window = to_size n.dtls_replay_protection_window;
  dtls_cipher_suite_mask = n.dtls_cipher_suite_mask;
  udp_bind_addresses = s.udp_bind_addresses;
  tcp_bind_addresses = s.tcp_bind_addresses;
  receive_mtu = to_size n.receive_mtu;
}

abbrev pub channel_dto_of : (ordered : Bool) → (a b : ℤ) → Text → ℤ → DataChannelDto
channel_dto_of ordered a b protocol n = record {
  ordered = ordered;
  max_packet_life_time = a;
  max_retransmits = b;
  protocol = protocol;
  negotiated_id = n;
}

-- `json` is read as the configuration of the call, strings hold UTF-8, and the numbers that the C ABI
-- takes as 64 bits are numbers of 32 bits.
abbrev pub Agrees : Readers → List ℕ → NativeCall → Type 0
Agrees rs json (NativeCall.create_peer r o s n) =
    (texts : PeerTexts)
    → read_peer_strings s ≡ returns texts
    → rs.peer_dto json ≡ valid (dto_of texts n)
Agrees rs json (NativeCall.set_configuration r o p us ns cs k t) =
    (urls names secrets : List Text)
    → read_string_array us ≡ returns urls
    → read_string_array ns ≡ returns names
    → read_string_array cs ≡ returns secrets
    → (dto : PeerDto) × (rs.peer_dto json ≡ valid dto)
      × (dto.ice_servers ≡ zip_servers urls names secrets)
      × (dto.relay_only ≡ is_one k)
Agrees rs json (NativeCall.create_data_channel r o p l ordered a b q n t) =
    HoldsText l
    × ((protocol : Text)
        → read_string q ≡ returns protocol
        → rs.channel_dto json ≡ valid (channel_dto_of ordered a b protocol n))
Agrees rs json (NativeCall.set_local_description r o p sdp k t) = IsInt k × HoldsText sdp
Agrees rs json (NativeCall.set_remote_description r o p sdp k t) = IsInt k × HoldsText sdp
Agrees rs json (NativeCall.add_ice_candidate r o p c m i t) = IsInt i × HoldsText c × HoldsText m
Agrees rs json (NativeCall.send_text r o c x t) = HoldsText x
Agrees rs json (NativeCall.try_send_text r o c x t) = HoldsText x
Agrees rs json (NativeCall.rotate_certificate r o pem t) = HoldsText pem
Agrees rs json _ = Unit
