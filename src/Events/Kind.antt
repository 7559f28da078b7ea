-- ===== src/Events/Kind.antt =====
-- The event kinds of native/src/events.rs.
use Prim.Native.Nat.{ℕ}

abbrev pub wake : ℕ
wake = 0

abbrev pub local_candidate : ℕ
local_candidate = 1

abbrev pub peer_state : ℕ
peer_state = 2

abbrev pub ice_connection_state : ℕ
ice_connection_state = 3

abbrev pub ice_gathering_state : ℕ
ice_gathering_state = 4

abbrev pub data_channel : ℕ
data_channel = 5

abbrev pub data_channel_open : ℕ
data_channel_open = 6

abbrev pub data_channel_closing : ℕ
data_channel_closing = 7

abbrev pub data_channel_closed : ℕ
data_channel_closed = 8

abbrev pub data_channel_error : ℕ
data_channel_error = 9

abbrev pub data_channel_text : ℕ
data_channel_text = 10

abbrev pub data_channel_binary : ℕ
data_channel_binary = 11

abbrev pub operation_complete : ℕ
operation_complete = 12

abbrev pub buffered_amount_low : ℕ
buffered_amount_low = 13

abbrev pub buffered_amount_high : ℕ
buffered_amount_high = 14

abbrev pub negotiation_needed : ℕ
negotiation_needed = 15

abbrev pub signaling_state : ℕ
signaling_state = 16
