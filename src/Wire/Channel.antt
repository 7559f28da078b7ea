-- ===== src/Wire/Channel.antt =====
-- The event of native/src/registry.rs that announces a channel of the other side, and how Kotlin reads
-- it: `registerRemoteDataChannel` of
-- src/commonMain/kotlin/com/enderdash/kestara/webrtc/PeerConnection.kt.
use Prim.Native.Nat.{bit_or-bitwise}
use mathlib.Core.List.{append-nil}
use kestara_webrtc.Base.{
  ℕ, ◌+◌, ◌*◌, ◌/◌, ◌%◌, ◌^◌, ◌<◌, ◌≡◌, refl, Bool, true, false, Option, none, some, List, [], ◌∷◌,
  ◌++◌, Text, ℤ, pos, negsuc, not, ◌==◌, arith, is_empty, if◌then◌else◌,
}
use kestara_webrtc.Events.{NativeEvent}
use kestara_webrtc.Registry.Channels.{
  ChannelInfo, channel_flags, channel_metadata, created_event, bool_number, or_minus_one,
}
use kestara_webrtc.Wire.Bytes.{i32_le, i32_bits, le_bytes, signed32, signed32-i32_bits, i32_bits-lt}
use kestara_webrtc.Wire.Reader.{read_le, read_le_bytes, ◌>>=◌}

-- `takeIf { it >= 0 }`
non_negative : ℤ → Option ℕ
non_negative (pos n) = some n
non_negative (negsuc n) = none

or_empty : Option Text → Text
or_empty none = []
or_empty (some text) = text

flag_bits : ℤ → ℕ
flag_bits (pos n) = n
flag_bits (negsuc n) = 0

require : Bool → Option (Unit {0})
require b = if b then some tt else none

-- The number is read as its bits, which is what Kotlin does with one that is not negative; a negative
-- one is never sent.
unfoldable pub decode_channel : NativeEvent → Option (ChannelInfo × ℕ)
unfolding non_negative or_empty flag_bits require
decode_channel event = do
  bytes ← event.payload
  (negotiated, bytes) ← read_le 1 bytes
  (life_time, bytes) ← read_le 4 bytes
  (retransmits, bytes) ← read_le 4 bytes
  _ ← require (is_empty bytes)
  some (
    record {
      label = or_empty event.text;
      protocol = or_empty event.secondary_text;
      ordered = flag_bits event.number % 2 == 1;
      negotiated = not (negotiated == 0);
      max_packet_life_time = non_negative (signed32 life_time);
      max_retransmits = non_negative (signed32 retransmits);
      is_open_now = flag_bits event.number / 2 % 2 == 1;
    },
    flag_bits event.number / 4,
  )

-- The three parts of the number do not overlap.
channel_flags_sum :
    (ordered open_now : Bool) (id : ℕ)
    → channel_flags ordered open_now id ≡ bool_number ordered + bool_number open_now * 2 + id * 4
unfolding channel_flags
channel_flags_sum false false id = omega (arith, bit_or-bitwise 0 (id * 4))
channel_flags_sum false true id = omega (arith, bit_or-bitwise 2 (id * 4))
channel_flags_sum true false id = omega (arith, bit_or-bitwise 1 (id * 4))
channel_flags_sum true true id = omega (arith, bit_or-bitwise 3 (id * 4))

-- A limit that the library gives is a `u16`.
abbrev pub IsU16 : Option ℕ → Type 0
IsU16 none = Unit {0}
IsU16 (some n) = n < 2 ^ 16

read_limit :
    (limit : Option ℕ) (rest : List ℕ)
    → IsU16 limit
    → read_le 4 (i32_le (or_minus_one limit) ++ rest) ≡ some (i32_bits (or_minus_one limit), rest)
unfolding i32_le
read_limit limit rest h = read_le_bytes 4 _ rest (omega (arith, i32_bits-lt (or_minus_one limit)))

read_limit_end :
    (limit : Option ℕ)
    → IsU16 limit
    → read_le 4 (i32_le (or_minus_one limit)) ≡ some (i32_bits (or_minus_one limit), [])
read_limit_end limit h = rw append-nil at (read_limit limit [] h)

read_flag :
    (b : Bool) (rest : List ℕ) → read_le 1 (bool_number b ∷ rest) ≡ some (bool_number b, rest)
unfolding le_bytes
read_flag true rest = read_le_bytes 1 1 rest (omega arith)
read_flag false rest = read_le_bytes 1 0 rest (omega arith)

limit_back :
    (limit : Option ℕ)
    → IsU16 limit
    → non_negative (signed32 (i32_bits (or_minus_one limit))) ≡ limit
unfolding non_negative
limit_back none h = refl
limit_back (some n) h = rw (signed32-i32_bits (pos n) (omega arith)) refl

ordered_back :
    (ordered open_now : Bool) (id : ℕ)
    → ((channel_flags ordered open_now id % 2 == 1) ≡ ordered)
      × ((channel_flags ordered open_now id / 2 % 2 == 1) ≡ open_now)
      × (channel_flags ordered open_now id / 4 ≡ id)
ordered_back ordered open_now id =
    rw (channel_flags_sum ordered open_now id) (parts ordered open_now)
  where
    parts :
        (a b : Bool)
        → ((bool_number a + bool_number b * 2 + id * 4) % 2 == 1 ≡ a)
          × ((bool_number a + bool_number b * 2 + id * 4) / 2 % 2 == 1 ≡ b)
          × ((bool_number a + bool_number b * 2 + id * 4) / 4 ≡ id)
    parts false false = (ground arith, ground arith, omega arith)
    parts false true = (ground arith, ground arith, omega arith)
    parts true false = (ground arith, ground arith, omega arith)
    parts true true = (ground arith, ground arith, omega arith)

negotiated_back : (b : Bool) → not (bool_number b == 0) ≡ b
negotiated_back true = refl
negotiated_back false = refl

-- Kotlin reads off the announcement of a channel what the library told about the channel: its label and
-- protocol, whether it is ordered, negotiated and open, its limits if it has any, and its id.
pub decode_channel-created_event :
    (peer h id : ℕ) (info : ChannelInfo)
    → IsU16 info.max_packet_life_time
    → IsU16 info.max_retransmits
    → decode_channel (created_event peer h id info) ≡ some (info, id)
unfolding decode_channel created_event channel_metadata or_empty flag_bits require
decode_channel-created_event peer h id info life retransmits =
    let (a, b, c) = ordered_back info.ordered info.is_open_now id in
    rw (
      read_flag info.negotiated _,
      read_limit info.max_packet_life_time _ life,
      read_limit_end info.max_retransmits retransmits,
      a,
      b,
      c,
      limit_back info.max_packet_life_time life,
      limit_back info.max_retransmits retransmits,
      negotiated_back info.negotiated,
    )
