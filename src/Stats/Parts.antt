-- ===== src/Stats/Parts.antt =====
-- The parts of the stats of native/src/registry.rs as bytes, and what Kotlin reads of each.
use kestara_webrtc.Base.{
  ℕ, ◌^◌, ◌<◌, ◌≡◌, refl, Bool, true, false, Option, none, some, List, [], ◌∷◌, ◌++◌, length, arith,
}
use mathlib.Core.List.{append-nil, append_assoc}
use kestara_webrtc.Events.{ok}
use kestara_webrtc.Stats.Report.{CandidateStats, PairStats, StatsReport}
use kestara_webrtc.Stats.Encode.{
  Field, u8, u16, u32, u64, f64, count, string, write_field, write_fields, candidate_fields,
  optional_candidate_fields, pair_fields, candidate, or_empty, flag,
}
use kestara_webrtc.Stats.Decode.{
  read_string, read_boolean, read_candidate, read_optional, read_pair, PairRead,
}
use kestara_webrtc.Wire.Bytes.{be_bytes}
use kestara_webrtc.Wire.Reader.{read_be_bytes, read_bytes_at}

-- A field lies within the range of its type, and a text is short enough for a Kotlin array.
abbrev pub Fits : Field → Type 0
Fits (u8 n) = n < 2 ^ 8
Fits (u16 n) = n < 2 ^ 16
Fits (u32 n) = n < 2 ^ 32
Fits (u64 n) = n < 2 ^ 64
Fits (f64 n) = n < 2 ^ 64
Fits (count n) = n < 2 ^ 16
Fits (string text) = length text < 2 ^ 31

abbrev pub AllFit : List Field → Type 0
AllFit [] = Unit {0}
AllFit (f ∷ fs) = Fits f × AllFit fs

abbrev pub field_bytes : Field → List ℕ
field_bytes (u8 n) = be_bytes 1 n
field_bytes (u16 n) = be_bytes 2 n
field_bytes (u32 n) = be_bytes 4 n
field_bytes (u64 n) = be_bytes 8 n
field_bytes (f64 n) = be_bytes 8 n
field_bytes (count n) = be_bytes 4 n
field_bytes (string text) = be_bytes 4 (length text) ++ text

-- The bytes of the fields, and then `rest`.
abbrev pub onto : List Field → List ℕ → List ℕ
onto [] rest = rest
onto (f ∷ fs) rest = field_bytes f ++ onto fs rest

pub onto-append :
    (fs gs : List Field) (rest : List ℕ) → onto (fs ++ gs) rest ≡ onto fs (onto gs rest)
onto-append [] gs rest = refl
onto-append (f ∷ fs) gs rest = rw (onto-append fs gs rest)

write_field-Fits :
    (output : List ℕ) (f : Field) → Fits f → write_field output f ≡ ok (output ++ field_bytes f)
unfolding write_field
write_field-Fits output (u8 n) h = refl
write_field-Fits output (u16 n) h = refl
write_field-Fits output (u32 n) h = refl
write_field-Fits output (u64 n) h = refl
write_field-Fits output (f64 n) h = refl
write_field-Fits output (count n) h = ground arith
write_field-Fits output (string text) h = ground arith

pub write_fields_fit :
    (output : List ℕ) (fs : List Field)
    → AllFit fs
    → write_fields output fs ≡ ok (output ++ onto fs [])
unfolding write_fields
write_fields_fit output [] h = rw append-nil refl
write_fields_fit output (f ∷ fs) h =
    rw (
      write_field-Fits output f h.0,
      write_fields_fit (output ++ field_bytes f) fs h.1,
      append_assoc,
    )

pub read_string_back :
    (text rest : List ℕ)
    → length text < 2 ^ 31
    → read_string ((be_bytes 4 (length text) ++ text) ++ rest) ≡ some (text, rest)
unfolding read_string
read_string_back text rest h =
    rw (append_assoc, read_be_bytes 4 (length text) (text ++ rest) (omega arith))
      (ground (arith, read_bytes_at (length text) text rest refl))

pub read_boolean_back :
    (b : Bool) (rest : List ℕ) → read_boolean (be_bytes 1 (flag b) ++ rest) ≡ some (b, rest)
unfolding read_boolean
read_boolean_back true rest = rw (read_be_bytes 1 1 rest (omega arith))
read_boolean_back false rest = rw (read_be_bytes 1 0 rest (omega arith))

-- A candidate with no address is read as one with an empty address.
abbrev pub candidate_read : CandidateStats → CandidateStats
candidate_read c = record c { address = some (or_empty c.address) }

candidate_back :
    (c : CandidateStats) (rest : List ℕ)
    → AllFit (candidate_fields c)
    → read_candidate (onto (candidate_fields c) rest) ≡ some (candidate_read c, rest)
unfolding candidate_fields read_candidate
candidate_back c rest (a, (b, (p, (d, (e, (f, (g, (i, (j, (k, (l, (m, (n, o))))))))))))) = rw (
  read_string_back c.id _ a,
  read_string_back (or_empty c.address) _ b,
  read_be_bytes 2 c.port _ p,
  read_string_back c.protocol _ d,
  read_string_back c.candidate_type _ e,
  read_be_bytes 4 c.priority _ f,
  read_string_back c.url _ g,
  read_string_back c.relay_protocol _ i,
  read_string_back c.foundation _ j,
  read_string_back c.related_address _ k,
  read_be_bytes 2 c.related_port _ l,
  read_string_back c.username_fragment _ m,
  read_string_back c.tcp_type _ n,
)

pub fit_left : (fs gs : List Field) → AllFit (fs ++ gs) → AllFit fs
fit_left [] gs h = tt
fit_left (f ∷ fs) gs h = (h.0, fit_left fs gs h.1)

pub fit_right : (fs gs : List Field) → AllFit (fs ++ gs) → AllFit gs
fit_right [] gs h = h
fit_right (f ∷ fs) gs h = fit_right fs gs h.1

abbrev pub candidates_read : Option CandidateStats → Option CandidateStats
candidates_read none = none
candidates_read (some c) = some (candidate_read c)

optional_candidate_back :
    (c : Option CandidateStats) (rest : List ℕ)
    → AllFit (optional_candidate_fields c)
    → read_optional read_candidate (onto (optional_candidate_fields c) rest)
      ≡ some (candidates_read c, rest)
unfolding optional_candidate_fields read_optional
optional_candidate_back none rest h = rw (read_boolean_back false rest)
optional_candidate_back (some c) rest h =
    rw (read_boolean_back true (onto (candidate_fields c) rest), candidate_back c rest h.1)

-- The counters of a pair, which follow its candidates.
abbrev counters : PairStats → List Field
counters pair =
    u64 pair.packets_sent
    ∷ u64 pair.packets_received
    ∷ u64 pair.bytes_sent
    ∷ u64 pair.bytes_received
    ∷ f64 pair.current_round_trip_time
    ∷ f64 pair.total_round_trip_time
    ∷ u64 pair.requests_sent
    ∷ u64 pair.requests_received
    ∷ u64 pair.responses_sent
    ∷ u64 pair.responses_received
    ∷ string pair.pair_state
    ∷ u8 (flag pair.nominated)
    ∷ []

abbrev pub pair_read : StatsReport → PairStats → PairRead
pair_read report pair = record {
  pair = pair;
  local = candidates_read (candidate report pair.local_candidate_id);
  remote = candidates_read (candidate report pair.remote_candidate_id);
}

pub pair_back :
    (report : StatsReport) (pair : PairStats) (rest : List ℕ)
    → AllFit (pair_fields report pair)
    → read_optional read_pair (onto (pair_fields report pair) rest)
      ≡ some (some (pair_read report pair), rest)
unfolding pair_fields read_optional read_pair
pair_back report pair rest (z, (a, (b, (c, h)))) =
    let local = candidate report pair.local_candidate_id in
    let remote = candidate report pair.remote_candidate_id in
    let hl = fit_left (optional_candidate_fields local) _ h in
    let hr = fit_right (optional_candidate_fields local) _ h in
    let hm = fit_left (optional_candidate_fields remote) (counters pair) hr in
    let (d, (e, (f, (g, (i, (j, (k, (l, (m, (n, (o, p))))))))))) =
      fit_right (optional_candidate_fields remote) (counters pair) hr in
    rw (
      read_boolean_back true,
      read_string_back pair.id _ a,
      read_string_back pair.local_candidate_id _ b,
      read_string_back pair.remote_candidate_id _ c,
      onto-append (optional_candidate_fields local),
      optional_candidate_back local _ hl,
      onto-append (optional_candidate_fields remote) (counters pair),
      optional_candidate_back remote _ hm,
      read_be_bytes 8 pair.packets_sent _ d,
      read_be_bytes 8 pair.packets_received _ e,
      read_be_bytes 8 pair.bytes_sent _ f,
      read_be_bytes 8 pair.bytes_received _ g,
      read_be_bytes 8 pair.current_round_trip_time _ i,
      read_be_bytes 8 pair.total_round_trip_time _ j,
      read_be_bytes 8 pair.requests_sent _ k,
      read_be_bytes 8 pair.requests_received _ l,
      read_be_bytes 8 pair.responses_sent _ m,
      read_be_bytes 8 pair.responses_received _ n,
      read_string_back pair.pair_state _ o,
      read_boolean_back pair.nominated rest,
    )
