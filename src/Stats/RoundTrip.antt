-- ===== src/Stats/RoundTrip.antt =====
-- What Kotlin reads of the stats that native/src/registry.rs wrote.
use kestara_webrtc.Base.{
  ◌-◌, ℕ, ◌^◌, ◌≡◌, refl, ◌∙◌, false, Option, none, some, List, [], ◌∷◌, length, arith,
}
use Prim.Native.Nat.{min}
use kestara_webrtc.Events.{ok}
use kestara_webrtc.Stats.Report.{
  ChannelStats, PeerStats, TransportStats, StatsReport, StatsEntry, candidate_pair,
}
use kestara_webrtc.Stats.Encode.{
  Field, u8, u32, u64, string, write_fields, channel_fields, all_channel_fields,
  selected_pair_fields, stats_fields, encode_stats, channels_of, lookup,
}
use kestara_webrtc.Stats.Decode.{
  read_optional, read_pair, PairRead, read_channel, read_channels, read_transport, decode_stats,
}
use kestara_webrtc.Wire.Reader.{read_be_bytes}
use kestara_webrtc.Stats.Parts.{
  AllFit, onto, onto-append, write_fields_fit, read_string_back, read_boolean_back, fit_left,
  fit_right, pair_read, pair_back,
}

-- The selected pair, if the report has a pair under its id.
abbrev pub selected_read : StatsReport → Option StatsEntry → Option PairRead
selected_read report (some (candidate_pair pair)) = some (pair_read report pair)
selected_read report _ = none

no_pair : (rest : List ℕ) → read_optional read_pair (onto (u8 0 ∷ []) rest) ≡ some (none, rest)
unfolding read_optional
no_pair rest = rw (read_boolean_back false rest)

selected_back :
    (report : StatsReport) (entry : Option StatsEntry) (rest : List ℕ)
    → AllFit (selected_pair_fields report entry)
    → read_optional read_pair (onto (selected_pair_fields report entry) rest)
      ≡ some (selected_read report entry, rest)
unfolding selected_pair_fields
selected_back report (some (candidate_pair pair)) rest h = pair_back report pair rest h
selected_back report _ rest h = no_pair rest

channel_back :
    (c : ChannelStats) (rest : List ℕ)
    → AllFit (channel_fields c)
    → read_channel (onto (channel_fields c) rest) ≡ some (c, rest)
unfolding channel_fields read_channel
channel_back c rest (a, (b, (d, (e, (f, (g, (i, (j, k)))))))) = rw (
  read_be_bytes 2 c.identifier _ a,
  read_string_back c.label _ b,
  read_string_back c.protocol _ d,
  read_string_back c.channel_state _ e,
  read_be_bytes 4 c.messages_sent _ f,
  read_be_bytes 8 c.bytes_sent _ g,
  read_be_bytes 4 c.messages_received _ i,
  read_be_bytes 8 c.bytes_received _ j,
)

channels_back :
    (cs : List ChannelStats) (rest : List ℕ)
    → AllFit (all_channel_fields cs)
    → read_channels (length cs) (onto (all_channel_fields cs) rest) ≡ some (cs, rest)
unfolding all_channel_fields read_channels
channels_back [] rest h = refl
channels_back (c ∷ cs) rest h = rw (
  onto-append (channel_fields c) (all_channel_fields cs),
  channel_back c _ (fit_left (channel_fields c) _ h),
  channels_back cs rest (fit_right (channel_fields c) _ h),
)

abbrev pub transport_read : TransportStats → TransportStats
transport_read transport = record transport { selected_candidate_pair_id = [] }

abbrev transport_fields : TransportStats → List Field
transport_fields transport =
    u64 transport.packets_sent
    ∷ u64 transport.packets_received
    ∷ u64 transport.bytes_sent
    ∷ u64 transport.bytes_received
    ∷ string transport.ice_role
    ∷ string transport.ice_state
    ∷ string transport.dtls_role
    ∷ string transport.dtls_state
    ∷ string transport.tls_version
    ∷ string transport.dtls_cipher
    ∷ u32 transport.selected_candidate_pair_changes
    ∷ []

transport_back :
    (t : TransportStats) (rest : List ℕ)
    → AllFit (transport_fields t)
    → read_transport (onto (transport_fields t) rest) ≡ some (transport_read t, rest)
unfolding read_transport
transport_back t rest (a, (b, (c, (d, (e, (f, (g, (i, (j, (k, (l, m))))))))))) = rw (
  read_be_bytes 8 t.packets_sent _ a,
  read_be_bytes 8 t.packets_received _ b,
  read_be_bytes 8 t.bytes_sent _ c,
  read_be_bytes 8 t.bytes_received _ d,
  read_string_back t.ice_role _ e,
  read_string_back t.ice_state _ f,
  read_string_back t.dtls_role _ g,
  read_string_back t.dtls_state _ i,
  read_string_back t.tls_version _ j,
  read_string_back t.dtls_cipher _ k,
  read_be_bytes 4 t.selected_candidate_pair_changes _ l,
)

decode_back :
    (report : StatsReport) (peer : PeerStats) (transport : TransportStats) (timestamp : ℕ)
    → AllFit (stats_fields report peer transport timestamp)
    → decode_stats (onto (stats_fields report peer transport timestamp) [])
      ≡ some (record {
        timestamp = min timestamp (2 ^ 64 - 1);
        peer = peer;
        transport = transport_read transport;
        selected_pair =
            selected_read report (lookup transport.selected_candidate_pair_id report.entries);
        channels = channels_of report.entries;
      })
unfolding decode_stats stats_fields
decode_back report peer transport timestamp (a, (b, (c, (d, fit)))) =
    let pair = lookup transport.selected_candidate_pair_id report.entries in
    let channels = channels_of report.entries in
    let after = fit_right (transport_fields transport) _ fit in
    let (e, f) = fit_right (selected_pair_fields report pair) _ after in
    rw
      (
        read_be_bytes 4 2 _ a,
        read_be_bytes 8 (min timestamp (2 ^ 64 - 1)) _ b,
        read_be_bytes 8 peer.data_channels_opened _ c,
        read_be_bytes 8 peer.data_channels_closed _ d,
        transport_back transport _ (fit_left (transport_fields transport) _ fit),
        onto-append (selected_pair_fields report pair),
        selected_back report pair _ (fit_left (selected_pair_fields report pair) _ after),
        read_be_bytes 4 (length channels) _ (omega (arith, e)),
      )
      (ground (arith, channels_back channels [] f))

encode_back :
    (report : StatsReport) (peer : PeerStats) (transport : TransportStats) (timestamp : ℕ)
    → report.peer_connection ≡ some peer
    → report.transport ≡ some transport
    → encode_stats report (ok timestamp)
      ≡ write_fields [] (stats_fields report peer transport timestamp)
unfolding encode_stats
encode_back report peer transport timestamp p t = ground (arith, p, t)

-- Let the numbers of a report lie within their types, its texts be shorter than 2 ^ 31 bytes, and its
-- channels be fewer than 2 ^ 16. Then `encode_stats` succeeds, and Kotlin reads back the time, the
-- counters, the transport, the selected pair with its two candidates, if the report has the pair, and
-- all the channels in order.
pub decode_stats-encode_stats :
    (report : StatsReport) (peer : PeerStats) (transport : TransportStats) (timestamp : ℕ)
    → report.peer_connection ≡ some peer
    → report.transport ≡ some transport
    → AllFit (stats_fields report peer transport timestamp)
    → (bytes : List ℕ) × (encode_stats report (ok timestamp) ≡ ok bytes)
      × (decode_stats bytes
          ≡ some (record {
            timestamp = min timestamp (2 ^ 64 - 1);
            peer = peer;
            transport = transport_read transport;
            selected_pair =
                selected_read report (lookup transport.selected_candidate_pair_id report.entries);
            channels = channels_of report.entries;
          }))
decode_stats-encode_stats report peer transport timestamp p t fit = (
  onto (stats_fields report peer transport timestamp) [],
  encode_back report peer transport timestamp p t ∙ write_fields_fit [] _ fit,
  decode_back report peer transport timestamp fit,
)
