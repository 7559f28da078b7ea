-- ===== src/Examples/Stats.antt =====
-- The theorem on the stats of native/src/registry.rs at work: a report with a selected pair, of which
-- one candidate is known, and a channel.
use kestara_webrtc.Base.{
  ℕ, ◌≡◌, refl, ◌^◌, ◌&&◌, ◌-◌, Bool, true, false, none, some, List, [], ◌∷◌, codes, ltb, length,
  arith,
}
use kestara_webrtc.Base.Strings.{ends_with, text_eq}
use Prim.Native.Nat.{min}
use kestara_webrtc.Events.{ok}
use kestara_webrtc.Stats.Report.{
  CandidateStats, PairStats, ChannelStats, PeerStats, TransportStats, StatsReport, candidate_pair,
  local_candidate, data_channel,
}
use kestara_webrtc.Stats.Encode.{
  Field, u8, u16, u32, u64, f64, count, string, stats_fields, pair_fields, candidate_fields,
  optional_candidate_fields, selected_pair_fields, channel_fields, all_channel_fields, channels_of,
  lookup, candidate, find_candidate, encode_stats,
}
use kestara_webrtc.Stats.Decode.{decode_stats}
use kestara_webrtc.Stats.Parts.{Fits, AllFit}
use kestara_webrtc.Stats.RoundTrip.{selected_read, transport_read, decode_stats-encode_stats}

fits : Field → Bool
fits (u8 n) = ltb n (2 ^ 8)
fits (u16 n) = ltb n (2 ^ 16)
fits (u32 n) = ltb n (2 ^ 32)
fits (u64 n) = ltb n (2 ^ 64)
fits (f64 n) = ltb n (2 ^ 64)
fits (count n) = ltb n (2 ^ 16)
fits (string text) = ltb (length text) (2 ^ 31)

all_fit : List Field → Bool
unfolding fits
all_fit [] = true
all_fit (f ∷ fs) = fits f && all_fit fs

fits-Fits : (f : Field) → fits f ≡ true → Fits f
unfolding fits
fits-Fits (u8 n) h = ground arith
fits-Fits (u16 n) h = ground arith
fits-Fits (u32 n) h = ground arith
fits-Fits (u64 n) h = ground arith
fits-Fits (f64 n) h = ground arith
fits-Fits (count n) h = ground arith
fits-Fits (string text) h = ground arith

and_both : (a b : Bool) → a && b ≡ true → (a ≡ true) × (b ≡ true)
and_both true b h = (refl, h)
and_both false b h = absurd (ground (arith, h))

all_fit-AllFit : (fs : List Field) → all_fit fs ≡ true → AllFit fs
unfolding all_fit
all_fit-AllFit [] h = tt
all_fit-AllFit (f ∷ fs) h =
    let (a, b) = and_both (fits f) (all_fit fs) h in (fits-Fits f a, all_fit-AllFit fs b)

abbrev peer : PeerStats
peer = record { data_channels_opened = 1; data_channels_closed = 0 }

abbrev transport : TransportStats
transport = record {
  packets_sent = 7;
  packets_received = 8;
  bytes_sent = 700;
  bytes_received = 800;
  ice_role = codes "Controlling";
  ice_state = codes "Connected";
  dtls_role = codes "Client";
  dtls_state = codes "Connected";
  tls_version = [];
  dtls_cipher = [];
  selected_candidate_pair_changes = 1;
  selected_candidate_pair_id = codes "pair";
}

abbrev pair : PairStats
pair = record {
  id = codes "pair";
  local_candidate_id = codes "here";
  remote_candidate_id = codes "there";
  packets_sent = 7;
  packets_received = 8;
  bytes_sent = 700;
  bytes_received = 800;
  current_round_trip_time = 0;
  total_round_trip_time = 0;
  requests_sent = 1;
  requests_received = 1;
  responses_sent = 1;
  responses_received = 1;
  pair_state = codes "Succeeded";
  nominated = true;
}

abbrev here : CandidateStats
here = record {
  id = codes "candidate-here";
  address = none;
  port = 5000;
  protocol = codes "udp";
  candidate_type = codes "Host";
  priority = 1;
  url = [];
  relay_protocol = [];
  foundation = codes "1";
  related_address = [];
  related_port = 0;
  username_fragment = [];
  tcp_type = [];
}

abbrev channel : ChannelStats
channel = record {
  identifier = 1;
  label = codes "chat";
  protocol = [];
  channel_state = codes "Open";
  messages_sent = 3;
  bytes_sent = 12;
  messages_received = 0;
  bytes_received = 0;
}

abbrev report : StatsReport
report = record {
  peer_connection = some peer;
  transport = some transport;
  entries =
      (codes "pair", candidate_pair pair)
      ∷ (codes "l1", local_candidate here)
      ∷ (codes "c1", data_channel channel)
      ∷ [];
}

report-AllFit : AllFit (stats_fields report peer transport 1000)
unfolding fits all_fit stats_fields pair_fields candidate_fields optional_candidate_fields
    selected_pair_fields channel_fields all_channel_fields channels_of lookup candidate
    find_candidate ends_with text_eq
report-AllFit = all_fit-AllFit (stats_fields report peer transport 1000) refl

decode_stats-encode_stats_example :
    (bytes : List ℕ) × (encode_stats report (ok 1000) ≡ ok bytes)
    × (decode_stats bytes
        ≡ some (record {
          timestamp = min 1000 (2 ^ 64 - 1);
          peer = peer;
          transport = transport_read transport;
          selected_pair = selected_read report (lookup (codes "pair") report.entries);
          channels = channels_of report.entries;
        }))
decode_stats-encode_stats_example =
    decode_stats-encode_stats report peer transport 1000 refl refl report-AllFit
