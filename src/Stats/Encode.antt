-- ===== src/Stats/Encode.antt =====
-- `encode_stats` of native/src/registry.rs and its writers. What is written is listed field by field;
-- `write_fields` writes the list, and stops at the first string that is too long.
use kestara_webrtc.Base.{
  ℕ, ◌-◌, ◌^◌, Bool, Option, none, some, List, [], ◌∷◌, ◌++◌, Text, ltb, length, if◌then◌else◌,
}
use Prim.Native.Nat.{min}
use kestara_webrtc.Base.Strings.{text_eq, ends_with}
use kestara_webrtc.Errors.{
  no_peer_entry, no_transport_entry, stats_string_too_large, too_many_channels,
}
use kestara_webrtc.Events.{Result, ok, err}
use kestara_webrtc.Wire.Bytes.{be_bytes}
use kestara_webrtc.Stats.Report.{
  CandidateStats, PairStats, ChannelStats, PeerStats, TransportStats, StatsEntry, candidate_pair,
  local_candidate, remote_candidate, data_channel, StatsReport,
}

-- One write: a `push`, an `extend_from_slice` of big-endian bytes, or a `write_…`. `count` is the
-- number of channels, which is checked as it is written.
pub data Field : Type 0 where
  u8 u16 u32 u64 f64 count : ℕ → Field
  string : Text → Field

infixl 5 ◌>>=◌
abbrev pub ◌>>=◌ {ℓ κ} : {A : Type ℓ} {B : Type κ} → Result A → (A → Result B) → Result B
ok a >>= f = f a
err e >>= f = err e

unfoldable pub write_field : List ℕ → Field → Result (List ℕ)
write_field output (u8 n) = ok (output ++ be_bytes 1 n)
write_field output (u16 n) = ok (output ++ be_bytes 2 n)
write_field output (u32 n) = ok (output ++ be_bytes 4 n)
write_field output (u64 n) = ok (output ++ be_bytes 8 n)
write_field output (f64 n) = ok (output ++ be_bytes 8 n)
write_field output (count n) =
    if ltb n (2 ^ 32) then ok (output ++ be_bytes 4 n) else err too_many_channels
write_field output (string value) =
    if ltb (length value) (2 ^ 32)
    then ok (output ++ (be_bytes 4 (length value) ++ value))
    else err stats_string_too_large

unfoldable pub write_fields : List ℕ → List Field → Result (List ℕ)
write_fields output [] = ok output
write_fields output (field ∷ fields) = do
  output' ← write_field output field
  write_fields output' fields

abbrev pub flag : Bool → ℕ
flag b = if b then 1 else 0

abbrev pub or_empty : Option Text → Text
or_empty none = []
or_empty (some text) = text

-- `write_candidate`
unfoldable pub candidate_fields : CandidateStats → List Field
candidate_fields c =
    string c.id
    ∷ string (or_empty c.address)
    ∷ u16 c.port
    ∷ string c.protocol
    ∷ string c.candidate_type
    ∷ u32 c.priority
    ∷ string c.url
    ∷ string c.relay_protocol
    ∷ string c.foundation
    ∷ string c.related_address
    ∷ u16 c.related_port
    ∷ string c.username_fragment
    ∷ string c.tcp_type
    ∷ []

-- `write_optional_candidate`
unfoldable pub optional_candidate_fields : Option CandidateStats → List Field
optional_candidate_fields none = u8 0 ∷ []
optional_candidate_fields (some c) = u8 1 ∷ candidate_fields c

unfoldable pub lookup : Text → List (Text × StatsEntry) → Option StatsEntry
lookup id [] = none
lookup id ((key, entry) ∷ rest) = if text_eq key id then some entry else lookup id rest

abbrev pub as_candidate : StatsEntry → Option CandidateStats
as_candidate (local_candidate c) = some c
as_candidate (remote_candidate c) = some c
as_candidate _ = none

abbrev if_id_ends : Text → Option CandidateStats → Option CandidateStats → Option CandidateStats
if_id_ends id none other = other
if_id_ends id (some c) other = if ends_with c.id id then some c else other

-- The first candidate whose own id ends with `id`.
unfoldable pub find_candidate : Text → List (Text × StatsEntry) → Option CandidateStats
find_candidate id [] = none
find_candidate id ((key, entry) ∷ rest) =
    if_id_ends id (as_candidate entry) (find_candidate id rest)

or_search : Option CandidateStats → Option CandidateStats → Option CandidateStats
or_search (some c) other = some c
or_search none other = other

entry_candidate : Option StatsEntry → Option CandidateStats
entry_candidate none = none
entry_candidate (some entry) = as_candidate entry

unfoldable pub candidate : StatsReport → Text → Option CandidateStats
unfolding or_search entry_candidate
candidate report id =
    or_search (entry_candidate (lookup id report.entries)) (find_candidate id report.entries)

unfoldable pub pair_fields : StatsReport → PairStats → List Field
pair_fields report pair =
    u8 1
    ∷ string pair.id
    ∷ string pair.local_candidate_id
    ∷ string pair.remote_candidate_id
    ∷ (optional_candidate_fields (candidate report pair.local_candidate_id)
        ++ (optional_candidate_fields (candidate report pair.remote_candidate_id)
            ++ (u64 pair.packets_sent
                ∷ u64 pair.packets_received
                ∷ u64 pair.bytes_sent
                ∷ u64 pair.bytes_received
                ∷ f64 pair.current_round_trip_time
                ∷ f64 pair.total_round_trip_time
                ∷ u64 pair.requests_sent
                ∷ u64 pair.requests_received
                ∷ u64 pair.responses_sent
                ∷ u64 pair.responses_received
                ∷ string pair.pair_state
                ∷ u8 (flag pair.nominated)
                ∷ [])))

unfoldable pub selected_pair_fields : StatsReport → Option StatsEntry → List Field
selected_pair_fields report (some (candidate_pair pair)) = pair_fields report pair
selected_pair_fields report _ = u8 0 ∷ []

unfoldable pub channels_of : List (Text × StatsEntry) → List ChannelStats
channels_of [] = []
channels_of ((key, data_channel c) ∷ rest) = c ∷ channels_of rest
channels_of ((key, _) ∷ rest) = channels_of rest

unfoldable pub channel_fields : ChannelStats → List Field
channel_fields c =
    u16 c.identifier
    ∷ string c.label
    ∷ string c.protocol
    ∷ string c.channel_state
    ∷ u32 c.messages_sent
    ∷ u64 c.bytes_sent
    ∷ u32 c.messages_received
    ∷ u64 c.bytes_received
    ∷ []

unfoldable pub all_channel_fields : List ChannelStats → List Field
all_channel_fields [] = []
all_channel_fields (c ∷ cs) = channel_fields c ++ all_channel_fields cs

-- Everything that `encode_stats` writes, the version first. `timestamp` is the clock's milliseconds.
unfoldable pub stats_fields : StatsReport → PeerStats → TransportStats → ℕ → List Field
stats_fields report peer transport timestamp =
    u32 2
    ∷ u64 (min timestamp (2 ^ 64 - 1))
    ∷ u64 peer.data_channels_opened
    ∷ u64 peer.data_channels_closed
    ∷ u64 transport.packets_sent
    ∷ u64 transport.packets_received
    ∷ u64 transport.bytes_sent
    ∷ u64 transport.bytes_received
    ∷ string transport.ice_role
    ∷ string transport.ice_state
    ∷ string transport.dtls_role
    ∷ string transport.dtls_state
    ∷ string transport.tls_version
    ∷ string transport.dtls_cipher
    ∷ u32 transport.selected_candidate_pair_changes
    ∷ (selected_pair_fields report (lookup transport.selected_candidate_pair_id report.entries)
        ++ (count (length (channels_of report.entries))
            ∷ all_channel_fields (channels_of report.entries)))

abbrev pub or_err {ℓ} : {A : Type ℓ} → Option A → Result A → Result A
or_err (some a) r = ok a
or_err none r = r

-- `now` is what the clock says: the milliseconds since the epoch, or an error.
unfoldable pub encode_stats : StatsReport → Result ℕ → Result (List ℕ)
encode_stats report now = do
  peer ← or_err report.peer_connection (err no_peer_entry)
  transport ← or_err report.transport (err no_transport_entry)
  timestamp ← now
  write_fields [] (stats_fields report peer transport timestamp)
