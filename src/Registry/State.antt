-- ===== src/Registry/State.antt =====
-- The state of native/src/registry.rs, the calls that it makes into the WebRTC library, and what the
-- library and the other tasks answer. Peers, channels and sockets of the library (`Arc<dyn …>`) are
-- numbers that name the object.
use kestara_webrtc.Base.{ℕ, Bool, false, Option, List, [], Text}
use kestara_webrtc.Map.{Map}
use kestara_webrtc.Events.{NativeEvent}
use kestara_webrtc.Stats.Report.{StatsReport}
use kestara_webrtc.Registry.Types.{
  NetworkType, MdnsMode, CandidateType, DtlsRole, CipherSuite, TransportPolicy, IpAddr, IceServer,
  SessionDescription, IceCandidateInit,
}

-- The setters that `setting_engine` calls on the library's `SettingEngine`.
pub data Setting : Type 0 where
  dtls_cipher_suites : List CipherSuite → Setting
  answering_dtls_role : DtlsRole → Setting
  sdp_media_level_fingerprints : Bool → Setting
  dtls_replay_protection_window : ℕ → Setting
  receive_mtu : ℕ → Setting
  ice_timeouts : Option ℕ → Option ℕ → Option ℕ → Setting
  ice_connection_attempts : Option ℕ → Option ℕ → Setting
  host_acceptance_min_wait : Option ℕ → Setting
  srflx_acceptance_min_wait : Option ℕ → Setting
  prflx_acceptance_min_wait : Option ℕ → Setting
  relay_acceptance_min_wait : Option ℕ → Setting
  network_types : List NetworkType → Setting
  multicast_dns_mode : MdnsMode → Setting
  include_loopback_candidate : Bool → Setting
  multicast_dns_local_name : Text → Setting
  multicast_dns_local_ip : Option IpAddr → Setting
  ice_credentials : Text → Text → Setting
  multicast_dns_timeout : Option ℕ → Setting
  lite : Bool → Setting
  discard_local_candidates_during_ice_restart : Bool → Setting
  nat_1to1_ips : List Text → CandidateType → Setting
  sctp_max_message_size : ℕ → Setting
  sctp_max_receive_buffer_size : ℕ → Setting

-- What the builder of a peer connection is given, without the runtime and the constants, which are the
-- same for every peer. A certificate is named by its PEM text.
pub record BuildRequest : Type 0 where
  pub handler : ℕ
  pub ice_servers : List IceServer
  pub policy : TransportPolicy
  pub certificates : List Text
  pub candidate_pool_size : ℕ
  pub settings : List Setting
  pub udp_addresses : List Text
  pub tcp_addresses : List Text
  pub send_buffer_limit : ℕ
  pub socket_mux : Option ℕ

pub record ChannelInit : Type 0 where
  pub ordered : Bool
  pub max_packet_life_time : Option ℕ
  pub max_retransmits : Option ℕ
  pub protocol : Text
  pub negotiated : Option ℕ

-- Each `await` on the library or on a peer's operation lock, with its arguments.
pub data Call : Type 0 where
  lock_operations : ℕ → Call
  build : BuildRequest → Call
  create_offer create_answer : ℕ → Call
  set_local_description set_remote_description : ℕ → SessionDescription → Call
  add_ice_candidate : ℕ → IceCandidateInit → Call
  restart_ice : ℕ → Call
  set_configuration : ℕ → List IceServer → TransportPolicy → Call
  create_channel : ℕ → Text → ChannelInit → Call
  send_text try_send_text : ℕ → Text → Call
  send try_send : ℕ → List ℕ → Call
  writable outstanding_bytes : ℕ → Call
  set_low_threshold set_high_threshold : ℕ → ℕ → Call
  get_stats : ℕ → Call
  channel_label channel_protocol channel_ordered channel_negotiated : ℕ → Call
  channel_life_time channel_retransmits channel_ready_state : ℕ → Call
  close_channel close_peer : ℕ → Call
  generate_key : Call

pub record PeerEntry : Type 0 where
  pub peer : ℕ
  pub receive_queue_capacity : ℕ

pub record ChannelEntry : Type 0 where
  pub channel : ℕ
  pub peer_handle : ℕ

-- Tasks that were handed to `tokio::spawn`.
pub data Spawned : Type 0 where
  polls_channel : (peer_handle channel_handle channel capacity : ℕ) → Spawned
  registers_channel : (peer_handle channel : ℕ) → Spawned

-- `RuntimeState` with its `Registry`. The last three fields are of the model: how many handles were
-- given out, the calls made (newest first) and the tasks spawned (newest first).
pub record RuntimeState : Type 0 where
  pub peers : Map PeerEntry
  pub channels : Map ChannelEntry
  pub poisoned : Bool
  pub events : List NativeEvent
  pub next_handle : ℕ
  pub certificate : Text
  pub certificate_poisoned : Bool
  pub socket_mux : Option ℕ
  pub issued : ℕ
  pub trace : List Call
  pub spawned : List Spawned

-- `RuntimeState::new`
unfoldable pub new_state : Text → Option ℕ → RuntimeState
new_state certificate mux = record {
  peers = [];
  channels = [];
  poisoned = false;
  events = [];
  next_handle = 1;
  certificate = certificate;
  certificate_poisoned = false;
  socket_mux = mux;
  issued = 0;
  trace = [];
  spawned = [];
}

-- The library's `Result`, its error by its text.
pub data Reply {ℓ} (A : Type ℓ) : Type ℓ where
  good : A → Reply A
  bad : Text → Reply A

pub data TrySent : Type 0 where
  sent buffer_full : TrySent
  refused : Text → TrySent

pub data ChannelState : Type 0 where
  unspecified_state connecting_state open_state closing_state closed_state : ChannelState

-- What the code cannot decide itself. An answer may depend on every call made so far, the one that is
-- answered at the head. `interfere` is what other tasks do to the state while one waits, and
-- `expired` tells that the deadline of the operation passes during that wait.
pub record Engine : Type 0 where
  pub interfere : RuntimeState → RuntimeState
  pub expired : List Call → Bool
  pub built : List Call → Reply ℕ
  pub described : List Call → Reply Text
  pub finished : List Call → Reply (Unit {0})
  pub opened : List Call → Reply ℕ
  pub channel_id : ℕ → ℕ
  pub try_sent : List Call → TrySent
  pub outstanding : List Call → Reply ℕ
  pub text_of : List Call → Reply Text
  pub flag_of : List Call → Reply Bool
  pub limit_of : List Call → Reply (Option ℕ)
  pub state_of : List Call → Reply ChannelState
  pub stats_of : List Call → StatsReport
  pub clock : List Call → Reply ℕ
  pub parse_ip : Text → Option IpAddr
  pub key_pair : List Call → Reply Text
  pub from_key_pair : Text → Reply Text
  pub from_pem : Text → Reply Text
  pub fingerprints : Text → List Text
