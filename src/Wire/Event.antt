-- ===== src/Wire/Event.antt =====
-- `encode_event` and `encode_optional` of native/src/c_bridge.rs, and the decoder of
-- src/nativeMain/kotlin/com/enderdash/kestara/webrtc/internal/NativeEventDecoder.kt. The decoder's
-- `Long`s are kept as their 64-bit patterns, and its texts as bytes.
pub mod RoundTrip
use kestara_webrtc.Base.{
  ℕ, ◌-◌, ◌^◌, Bool, Option, none, some, List, [], ◌∷◌, ◌++◌, ℤ, Text, ◌==◌, ltb, if◌then◌else◌,
  take, length, is_empty,
}
use Prim.Native.Nat.{min}
use kestara_webrtc.Events.{NativeEvent}
use kestara_webrtc.Wire.Bytes.{le_bytes, i32_bits, signed32}
use kestara_webrtc.Wire.Reader.{read_bytes, read_le, ◌>>=◌}

-- `i32::try_from(len).unwrap_or(i32::MAX)`
unfoldable pub clipped_length : List ℕ → ℕ
clipped_length value = min (length value) (2 ^ 31 - 1)

-- `&value[..length]`
unfoldable pub clip : List ℕ → List ℕ
clip value = take (clipped_length value) value

unfoldable pub encode_optional : Option (List ℕ) → List ℕ
encode_optional (some value) = le_bytes 4 (clipped_length value) ++ clip value
encode_optional none = le_bytes 4 (2 ^ 32 - 1)

unfoldable pub encode_event : NativeEvent → List ℕ
encode_event event =
    le_bytes 1 1
    ++ (le_bytes 4 event.kind
        ++ (le_bytes 8 event.peer_handle
            ++ (le_bytes 8 event.channel_handle
                ++ (le_bytes 8 event.operation_handle
                    ++ (le_bytes 4 (i32_bits event.number)
                        ++ (encode_optional event.text
                            ++ (encode_optional event.secondary_text
                                ++ encode_optional event.payload)))))))

-- What Kotlin is given of an event.
pub record WireEvent : Type 0 where
  pub kind : ℤ
  pub peer_handle : ℕ
  pub channel_handle : ℕ
  pub operation_handle : ℕ
  pub number : ℤ
  pub text : Option (List ℕ)
  pub secondary_text : Option (List ℕ)
  pub payload : Option (List ℕ)

some_of : Option (List ℕ × List ℕ) → Option (Option (List ℕ) × List ℕ)
some_of (some (value, rest)) = some (some value, rest)
some_of none = none

-- `optionalBytes`: the length -1 stands for null, and any other negative length is refused.
unfoldable pub optional_bytes : List ℕ → Option (Option (List ℕ) × List ℕ)
unfolding some_of
optional_bytes bs = do
  (size, rest) ← read_le 4 bs
  if size == 2 ^ 32 - 1
      then some (none, rest)
      else if ltb size (2 ^ 31)
      then some_of (read_bytes size rest)
      else none

require : Bool → Option (Unit {0})
require b = if b then some tt else none

unfoldable pub decode_event : List ℕ → Option WireEvent
unfolding require
decode_event bs = do
  (version, bs) ← read_le 1 bs
  _ ← require (version == 1)
  (kind, bs) ← read_le 4 bs
  (peer, bs) ← read_le 8 bs
  (channel, bs) ← read_le 8 bs
  (operation, bs) ← read_le 8 bs
  (number, bs) ← read_le 4 bs
  (text, bs) ← optional_bytes bs
  (secondary, bs) ← optional_bytes bs
  (payload, bs) ← optional_bytes bs
  _ ← require (is_empty bs)
  some (record {
    kind = signed32 kind;
    peer_handle = peer;
    channel_handle = channel;
    operation_handle = operation;
    number = signed32 number;
    text = text;
    secondary_text = secondary;
    payload = payload;
  })
