-- ===== src/Wire/Event/RoundTrip.antt =====
-- What Kotlin decodes is what native/src/c_bridge.rs encoded.
use kestara_webrtc.Base.{
  ℕ, zero, suc, ◌-◌, ◌^◌, ◌≤◌, ◌<◌, ◌≡◌, refl, Option, none, some, List, [], ◌∷◌, ◌++◌, pos, take,
  length, arith,
}
use Prim.Native.Nat.{min}
use mathlib.Core.List.{append-nil, append_assoc}
use kestara_webrtc.Events.{NativeEvent}
use kestara_webrtc.Wire.Bytes.{le_bytes, i32_bits, signed32, IsI32, signed32-i32_bits, i32_bits-lt}
use kestara_webrtc.Wire.Reader.{read_le_bytes, read_bytes_at}
use kestara_webrtc.Wire.Event.{
  clipped_length, clip, encode_optional, encode_event, optional_bytes, decode_event,
}

length-take-min : (n : ℕ) (xs : List ℕ) → length (take (min (length xs) n) xs) ≡ min (length xs) n
length-take-min n xs = go (min (length xs) n) xs (omega arith)
  where
    go : (k : ℕ) (ys : List ℕ) → k ≤ length ys → length (take k ys) ≡ k
    go zero ys h = refl
    go (suc k) [] h = absurd (omega arith)
    go (suc k) (y ∷ ys) h = omega (arith, go k ys (omega arith))

length-clip : (value : List ℕ) → length (clip value) ≡ clipped_length value
unfolding clip clipped_length
length-clip value = length-take-min (2 ^ 31 - 1) value

clipped_length-lt : (value : List ℕ) → clipped_length value < 2 ^ 31
unfolding clipped_length
clipped_length-lt value = omega arith

-- A value that is given comes back, cut at 2 ^ 31 - 1 bytes.
abbrev pub clipped : Option (List ℕ) → Option (List ℕ)
clipped none = none
clipped (some value) = some (clip value)

optional_bytes-some :
    (n : ℕ) (xs rest : List ℕ)
    → length xs ≡ n
    → n < 2 ^ 31
    → optional_bytes (le_bytes 4 n ++ (xs ++ rest)) ≡ some (some xs, rest)
unfolding optional_bytes
optional_bytes-some n xs rest e h =
    rw (read_le_bytes 4 n (xs ++ rest) (omega arith)) (ground (arith, read_bytes_at n xs rest e))

optional_bytes-encode_optional :
    (value : Option (List ℕ)) (rest : List ℕ)
    → optional_bytes (encode_optional value ++ rest) ≡ some (clipped value, rest)
unfolding optional_bytes encode_optional
optional_bytes-encode_optional none rest = rw (read_le_bytes 4 (2 ^ 32 - 1) rest (omega arith))
optional_bytes-encode_optional (some value) rest = rw append_assoc (
    optional_bytes-some (clipped_length value) (clip value) rest (length-clip value)
      (clipped_length-lt value))

optional_bytes_end :
    (value : Option (List ℕ)) → optional_bytes (encode_optional value) ≡ some (clipped value, [])
optional_bytes_end value = rw append-nil at (optional_bytes-encode_optional value [])

signed32_small : (n : ℕ) → n < 2 ^ 31 → signed32 n ≡ pos n
signed32_small n h = ground arith

module _ (event : NativeEvent) where
  -- The fields of the event lie within the ranges of their Rust types, its kind below 2 ^ 31.
  pub record IsInRange : Type 0 where
    pub kind : event.kind < 2 ^ 31
    pub peer_handle : event.peer_handle < 2 ^ 64
    pub channel_handle : event.channel_handle < 2 ^ 64
    pub operation_handle : event.operation_handle < 2 ^ 64
    pub number : IsI32 event.number

-- Kotlin decodes each encoded event to the event itself, without its delivery permit, and with each
-- text and payload cut at 2 ^ 31 - 1 bytes.
pub decode_event-encode_event :
    (event : NativeEvent)
    → IsInRange event
    → decode_event (encode_event event)
      ≡ some (record {
        kind = pos event.kind;
        peer_handle = event.peer_handle;
        channel_handle = event.channel_handle;
        operation_handle = event.operation_handle;
        number = event.number;
        text = clipped event.text;
        secondary_text = clipped event.secondary_text;
        payload = clipped event.payload;
      })
unfolding decode_event encode_event
decode_event-encode_event event h = rw (
  read_le_bytes 1 1 _ (omega arith),
  read_le_bytes 4 event.kind _ (omega (arith, h.kind)),
  read_le_bytes 8 event.peer_handle _ (omega (arith, h.peer_handle)),
  read_le_bytes 8 event.channel_handle _ (omega (arith, h.channel_handle)),
  read_le_bytes 8 event.operation_handle _ (omega (arith, h.operation_handle)),
  read_le_bytes 4 (i32_bits event.number) _ (omega (arith, i32_bits-lt event.number)),
  optional_bytes-encode_optional event.text,
  optional_bytes-encode_optional event.secondary_text,
  optional_bytes_end event.payload,
  signed32_small event.kind h.kind,
  signed32-i32_bits event.number h.number,
)
