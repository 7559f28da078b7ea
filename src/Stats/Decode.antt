-- ===== src/Stats/Decode.antt =====
-- How Kotlin reads the stats of native/src/registry.rs:
-- src/commonMain/kotlin/com/enderdash/kestara/webrtc/internal/StatsDecoder.kt. Its `Long`s are kept as
-- their 64-bit patterns, and its texts as bytes.
use kestara_webrtc.Base.{
  ℕ, zero, suc, ◌^◌, Bool, true, false, not, Option, none, some, List, [], ◌∷◌, Text, ltb, ◌==◌,
  if◌then◌else◌, is_empty,
}
use kestara_webrtc.Stats.Report.{CandidateStats, PairStats, ChannelStats, PeerStats, TransportStats}
use kestara_webrtc.Wire.Reader.{read_bytes, read_be, ◌>>=◌}

unfoldable pub read_string : List ℕ → Option (Text × List ℕ)
read_string bs = do
  (size, bs) ← read_be 4 bs
  if ltb size (2 ^ 31) then read_bytes size bs else none

unfoldable pub read_boolean : List ℕ → Option (Bool × List ℕ)
read_boolean bs = do (byte, bs) ← read_be 1 bs; some (not (byte == 0), bs)

unfoldable pub read_candidate : List ℕ → Option (CandidateStats × List ℕ)
read_candidate bs = do
  (id, bs) ← read_string bs
  (address, bs) ← read_string bs
  (port, bs) ← read_be 2 bs
  (protocol, bs) ← read_string bs
  (candidate_type, bs) ← read_string bs
  (priority, bs) ← read_be 4 bs
  (url, bs) ← read_string bs
  (relay_protocol, bs) ← read_string bs
  (foundation, bs) ← read_string bs
  (related_address, bs) ← read_string bs
  (related_port, bs) ← read_be 2 bs
  (username_fragment, bs) ← read_string bs
  (tcp_type, bs) ← read_string bs
  some (
    record {
      id = id;
      address = some address;
      port = port;
      protocol = protocol;
      candidate_type = candidate_type;
      priority = priority;
      url = url;
      relay_protocol = relay_protocol;
      foundation = foundation;
      related_address = related_address;
      related_port = related_port;
      username_fragment = username_fragment;
      tcp_type = tcp_type;
    },
    bs,
  )

-- `if (readBoolean()) read() else null`
read_optional_if {ℓ} :
    {A : Type ℓ} → (List ℕ → Option (A × List ℕ)) → Bool × List ℕ → Option (Option A × List ℕ)
read_optional_if read (true, bs) = do (value, rest) ← read bs; some (some value, rest)
read_optional_if read (false, bs) = some (none, bs)

unfoldable pub read_optional {ℓ} :
    {A : Type ℓ} → (List ℕ → Option (A × List ℕ)) → List ℕ → Option (Option A × List ℕ)
unfolding read_optional_if
read_optional read bs = do found ← read_boolean bs; read_optional_if read found

-- A pair with the two candidates that are written with it.
pub record PairRead : Type 0 where
  pub pair : PairStats
  pub local : Option CandidateStats
  pub remote : Option CandidateStats

unfoldable pub read_pair : List ℕ → Option (PairRead × List ℕ)
read_pair bs = do
  (id, bs) ← read_string bs
  (local_id, bs) ← read_string bs
  (remote_id, bs) ← read_string bs
  (local, bs) ← read_optional read_candidate bs
  (remote, bs) ← read_optional read_candidate bs
  (packets_sent, bs) ← read_be 8 bs
  (packets_received, bs) ← read_be 8 bs
  (bytes_sent, bs) ← read_be 8 bs
  (bytes_received, bs) ← read_be 8 bs
  (current_round_trip_time, bs) ← read_be 8 bs
  (total_round_trip_time, bs) ← read_be 8 bs
  (requests_sent, bs) ← read_be 8 bs
  (requests_received, bs) ← read_be 8 bs
  (responses_sent, bs) ← read_be 8 bs
  (responses_received, bs) ← read_be 8 bs
  (pair_state, bs) ← read_string bs
  (nominated, bs) ← read_boolean bs
  some (
    record {
      pair = record {
        id = id;
        local_candidate_id = local_id;
        remote_candidate_id = remote_id;
        packets_sent = packets_sent;
        packets_received = packets_received;
        bytes_sent = bytes_sent;
        bytes_received = bytes_received;
        current_round_trip_time = current_round_trip_time;
        total_round_trip_time = total_round_trip_time;
        requests_sent = requests_sent;
        requests_received = requests_received;
        responses_sent = responses_sent;
        responses_received = responses_received;
        pair_state = pair_state;
        nominated = nominated;
      };
      local = local;
      remote = remote;
    },
    bs,
  )

unfoldable pub read_channel : List ℕ → Option (ChannelStats × List ℕ)
read_channel bs = do
  (identifier, bs) ← read_be 2 bs
  (label, bs) ← read_string bs
  (protocol, bs) ← read_string bs
  (channel_state, bs) ← read_string bs
  (messages_sent, bs) ← read_be 4 bs
  (bytes_sent, bs) ← read_be 8 bs
  (messages_received, bs) ← read_be 4 bs
  (bytes_received, bs) ← read_be 8 bs
  some (
    record {
      identifier = identifier;
      label = label;
      protocol = protocol;
      channel_state = channel_state;
      messages_sent = messages_sent;
      bytes_sent = bytes_sent;
      messages_received = messages_received;
      bytes_received = bytes_received;
    },
    bs,
  )

unfoldable pub read_channels : ℕ → List ℕ → Option (List ChannelStats × List ℕ)
read_channels zero bs = some ([], bs)
read_channels (suc n) bs = do
  (channel, bs) ← read_channel bs
  (channels, bs) ← read_channels n bs
  some (channel ∷ channels, bs)

-- The transport's statistics; the id of its selected pair is not written as such.
unfoldable pub read_transport : List ℕ → Option (TransportStats × List ℕ)
read_transport bs = do
  (packets_sent, bs) ← read_be 8 bs
  (packets_received, bs) ← read_be 8 bs
  (bytes_sent, bs) ← read_be 8 bs
  (bytes_received, bs) ← read_be 8 bs
  (ice_role, bs) ← read_string bs
  (ice_state, bs) ← read_string bs
  (dtls_role, bs) ← read_string bs
  (dtls_state, bs) ← read_string bs
  (tls_version, bs) ← read_string bs
  (dtls_cipher, bs) ← read_string bs
  (changes, bs) ← read_be 4 bs
  some (
    record {
      packets_sent = packets_sent;
      packets_received = packets_received;
      bytes_sent = bytes_sent;
      bytes_received = bytes_received;
      ice_role = ice_role;
      ice_state = ice_state;
      dtls_role = dtls_role;
      dtls_state = dtls_state;
      tls_version = tls_version;
      dtls_cipher = dtls_cipher;
      selected_candidate_pair_changes = changes;
      selected_candidate_pair_id = [];
    },
    bs,
  )

pub record StatsRead : Type 0 where
  pub timestamp : ℕ
  pub peer : PeerStats
  pub transport : TransportStats
  pub selected_pair : Option PairRead
  pub channels : List ChannelStats

require : Bool → Option (Unit {0})
require b = if b then some tt else none

unfoldable pub decode_stats : List ℕ → Option StatsRead
unfolding require
decode_stats bs = do
  (version, bs) ← read_be 4 bs
  _ ← require (version == 2)
  (timestamp, bs) ← read_be 8 bs
  (opened, bs) ← read_be 8 bs
  (closed, bs) ← read_be 8 bs
  (transport, bs) ← read_transport bs
  (pair, bs) ← read_optional read_pair bs
  (count, bs) ← read_be 4 bs
  _ ← require (ltb count 65536)
  (channels, bs) ← read_channels count bs
  _ ← require (is_empty bs)
  some (record {
    timestamp = timestamp;
    peer = record { data_channels_opened = opened; data_channels_closed = closed };
    transport = transport;
    selected_pair = pair;
    channels = channels;
  })
