-- ===== src/Registry/Types.antt =====
-- The configuration types of native/src/registry.rs, with the types of the WebRTC libraries that they
-- name, as far as the source builds them. Durations are milliseconds.
use kestara_webrtc.Base.{ℕ, Bool, Option, List, Text}

pub data NetworkType : Type 0 where
  unspecified udp4 udp6 tcp4 tcp6 : NetworkType

pub data MdnsMode : Type 0 where
  disabled query_only query_and_gather : MdnsMode

pub data CandidateType : Type 0 where
  host srflx : CandidateType

pub data DtlsRole : Type 0 where
  client server : DtlsRole

pub data CipherSuite : Type 0 where
  ecdsa_aes_128_ccm ecdsa_aes_128_ccm_8 ecdsa_aes_128_gcm rsa_aes_128_gcm : CipherSuite
  ecdsa_aes_256_cbc rsa_aes_256_cbc rsa_chacha20 ecdsa_chacha20 : CipherSuite

pub data TransportPolicy : Type 0 where
  all relay : TransportPolicy

pub data IpAddr : Type 0 where
  v4 v6 : Text → IpAddr

pub record IceServer : Type 0 where
  pub urls : List Text
  pub username : Text
  pub credential : Text

abbrev pub default_ice_server : IceServer
default_ice_server = record { urls = List.[]; username = List.[]; credential = List.[] }

pub data SdpType : Type 0 where
  offer answer pranswer rollback : SdpType

pub record SessionDescription : Type 0 where
  pub sdp_type : SdpType
  pub sdp : Text

pub record IceCandidateInit : Type 0 where
  pub candidate : Text
  pub sdp_mid : Option Text
  pub sdp_mline_index : Option ℕ

pub record IceConfiguration : Type 0 where
  pub disconnected_timeout : Option ℕ
  pub failed_timeout : Option ℕ
  pub keep_alive_interval : Option ℕ
  pub check_interval : Option ℕ
  pub max_binding_requests : Option ℕ
  pub host_acceptance_min_wait : Option ℕ
  pub server_reflexive_acceptance_min_wait : Option ℕ
  pub peer_reflexive_acceptance_min_wait : Option ℕ
  pub relay_acceptance_min_wait : Option ℕ
  pub network_types : List NetworkType
  pub mdns_mode : MdnsMode
  pub mdns_query_timeout : Option ℕ
  pub lite : Bool
  pub nat_mapping : Option (List Text × CandidateType)
  pub discard_local_candidates_on_restart : Bool
  pub candidate_pool_size : ℕ
  pub include_loopback_candidate : Bool
  pub mdns_local_name : Option Text
  pub mdns_local_address : Option IpAddr
  pub credentials : Option (Text × Text)

pub record DtlsConfiguration : Type 0 where
  pub answering_role : Option DtlsRole
  pub media_level_fingerprints : Bool
  pub replay_protection_window : ℕ
  pub cipher_suites : List CipherSuite

pub record TransportConfiguration : Type 0 where
  pub udp_bind_addresses : List Text
  pub tcp_bind_addresses : List Text
  pub receive_mtu : ℕ

pub record SctpConfiguration : Type 0 where
  pub send_buffer_limit : ℕ
  pub receive_buffer_size : ℕ
  pub maximum_message_size : ℕ
  pub receive_queue_capacity : ℕ

pub record PeerConfiguration : Type 0 where
  pub ice_servers : List IceServer
  pub min_port : ℕ
  pub max_port : ℕ
  pub relay_only : Bool
  pub ice : IceConfiguration
  pub sctp : SctpConfiguration
  pub dtls : DtlsConfiguration
  pub transport : TransportConfiguration

pub record DataChannelConfiguration : Type 0 where
  pub label : Text
  pub ordered : Bool
  pub max_packet_life_time : Option ℕ
  pub max_retransmits : Option ℕ
  pub protocol : Text
  pub negotiated_id : Option ℕ
