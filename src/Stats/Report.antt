-- ===== src/Stats/Report.antt =====
-- The library's stats report, as far as `encode_stats` of native/src/registry.rs reads it. A `{:?}` of
-- a library enumeration is its text, and a float is its 64 bits.
use kestara_webrtc.Base.{ℕ, Bool, Option, List, Text}

pub record CandidateStats : Type 0 where
  pub id : Text
  pub address : Option Text
  pub port : ℕ
  pub protocol : Text
  pub candidate_type : Text
  pub priority : ℕ
  pub url : Text
  pub relay_protocol : Text
  pub foundation : Text
  pub related_address : Text
  pub related_port : ℕ
  pub username_fragment : Text
  pub tcp_type : Text

pub record PairStats : Type 0 where
  pub id : Text
  pub local_candidate_id : Text
  pub remote_candidate_id : Text
  pub packets_sent : ℕ
  pub packets_received : ℕ
  pub bytes_sent : ℕ
  pub bytes_received : ℕ
  pub current_round_trip_time : ℕ
  pub total_round_trip_time : ℕ
  pub requests_sent : ℕ
  pub requests_received : ℕ
  pub responses_sent : ℕ
  pub responses_received : ℕ
  pub pair_state : Text
  pub nominated : Bool

pub record ChannelStats : Type 0 where
  pub identifier : ℕ
  pub label : Text
  pub protocol : Text
  pub channel_state : Text
  pub messages_sent : ℕ
  pub bytes_sent : ℕ
  pub messages_received : ℕ
  pub bytes_received : ℕ

pub record PeerStats : Type 0 where
  pub data_channels_opened : ℕ
  pub data_channels_closed : ℕ

pub record TransportStats : Type 0 where
  pub packets_sent : ℕ
  pub packets_received : ℕ
  pub bytes_sent : ℕ
  pub bytes_received : ℕ
  pub ice_role : Text
  pub ice_state : Text
  pub dtls_role : Text
  pub dtls_state : Text
  pub tls_version : Text
  pub dtls_cipher : Text
  pub selected_candidate_pair_changes : ℕ
  pub selected_candidate_pair_id : Text

pub data StatsEntry : Type 0 where
  candidate_pair : PairStats → StatsEntry
  local_candidate remote_candidate : CandidateStats → StatsEntry
  data_channel : ChannelStats → StatsEntry
  other_entry : StatsEntry

-- `entries` is in the order in which the report iterates.
pub record StatsReport : Type 0 where
  pub peer_connection : Option PeerStats
  pub transport : Option TransportStats
  pub entries : List (Text × StatsEntry)
