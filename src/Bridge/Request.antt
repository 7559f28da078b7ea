-- ===== src/Bridge/Request.antt =====
-- `kestara_runtime_submit` of native/src/c_bridge.rs: how a request becomes a command.
use kestara_webrtc.Base.{
  ℕ, zero, suc, ◌^◌, Bool, true, false, Option, none, some, List, [], ◌∷◌, ◌++◌, Text, codes, ℤ,
  pos, negsuc, ltb, if◌then◌else◌,
}
use kestara_webrtc.Base.Strings.{text_eq}
use kestara_webrtc.Base.Utf8.{from_utf8_lossy}
use kestara_webrtc.Registry.Types.{IpAddr, SdpType, SessionDescription}
use kestara_webrtc.Runtime.Command.{Command}
use kestara_webrtc.Bridge.Checked.{Checked, valid, invalid, ◌>>=◌}
use kestara_webrtc.Bridge.Arguments.{parse_description, signed_decimal}
use kestara_webrtc.Bridge.Configuration.{PeerDto}

-- A pointer with its length.
pub data Input : Type 0 where
  null : ℕ → Input
  at : List ℕ → Input

pub data Kind : Type 0 where
  create_peer restart_ice set_configuration create_description set_local_description : Kind
  set_remote_description add_ice_candidate create_data_channel send_text send_binary : Kind
  try_send_text try_send_binary data_channel_writable data_channel_outstanding_bytes : Kind
  set_data_channel_thresholds get_stats rotate_certificate close_data_channel : Kind
  close_peer close_runtime : Kind

pub record DataChannelDto : Type 0 where
  pub ordered : Bool
  pub max_packet_life_time : ℤ
  pub max_retransmits : ℤ
  pub protocol : Text
  pub negotiated_id : ℤ

pub record Request : Type 0 where
  pub operation : ℕ
  pub kind : ℤ
  pub target : ℕ
  pub timeout_millis : ℤ
  pub text : Input
  pub secondary_text : Input
  pub number : ℤ
  pub secondary_number : ℤ
  pub data_bytes : Input
  pub configuration : Input

-- What the code takes from serde, from the WebRTC library and from the parser of addresses, and the
-- text of the error for bytes that are no UTF-8.
pub record Readers : Type 0 where
  pub peer_dto : List ℕ → Checked PeerDto
  pub channel_dto : List ℕ → Checked DataChannelDto
  pub description : SdpType → Text → Checked SessionDescription
  pub address : Text → Checked IpAddr
  pub utf8_error : List ℕ → Text

-- A request is submitted as a command, or its operation is completed with an error at once.
pub data Submission : Type 0 where
  submits : Command → Submission
  completes_error : ℕ → Text → Submission

unfoldable pub input : Input → Checked (List ℕ)
input (null zero) = valid []
input (null (suc n)) = invalid (codes "A native input pointer is null")
input (at bytes) = valid bytes

unfoldable pub optional_string : (List ℕ → Text) → Input → Checked (Option Text)
optional_string utf8_error (null n) = valid none
optional_string utf8_error (at bytes) =
    if text_eq (from_utf8_lossy bytes) bytes then valid (some bytes) else invalid (utf8_error bytes)

unfoldable pub required : Option Text → Text → Checked Text
required (some text) name = valid text
required none name = invalid (codes "The " ++ (name ++ codes " is missing"))

-- The kinds by their numbers, from 1 on.
kinds : List Kind
kinds =
    create_peer ∷ restart_ice ∷ set_configuration ∷ create_description ∷ set_local_description
    ∷ set_remote_description ∷ add_ice_candidate ∷ create_data_channel ∷ send_text ∷ send_binary
    ∷ try_send_text ∷ try_send_binary ∷ data_channel_writable ∷ data_channel_outstanding_bytes
    ∷ set_data_channel_thresholds ∷ get_stats ∷ rotate_certificate ∷ close_data_channel ∷ close_peer
    ∷ close_runtime ∷ []

nth : ℕ → List Kind → Option Kind
nth n [] = none
nth zero (k ∷ ks) = some k
nth (suc n) (k ∷ ks) = nth n ks

unfoldable pub command_kind : ℤ → Checked Kind
unfolding kinds nth
command_kind (pos (suc n)) = elim (nth n kinds) [
  | some kind ↦ valid kind
  | none ↦ invalid (codes "Unknown native command: " ++ signed_decimal (pos (suc n)))
]
command_kind number = invalid (codes "Unknown native command: " ++ signed_decimal number)

-- `i32::try_from(number)`
unfoldable pub small : ℤ → Text → Checked ℤ
small (pos n) e = if ltb n (2 ^ 31) then valid (pos n) else invalid e
small (negsuc n) e = if ltb n (2 ^ 31) then valid (negsuc n) else invalid e

-- `u32::try_from(number)`
unfoldable pub unsigned : ℤ → Text → Checked ℕ
unsigned (pos n) e = if ltb n (2 ^ 32) then valid n else invalid e
unsigned (negsuc n) e = invalid e

unfoldable pub wants_answer : ℤ → Checked Bool
wants_answer (pos zero) = valid false
wants_answer (pos (suc zero)) = valid true
wants_answer _ = invalid (codes "Only offer and answer descriptions can be created")

-- A description that the library refuses completes the operation; it is no error of the request.
unfoldable pub described :
    ℕ → (SessionDescription → Command) → Checked SessionDescription → Submission
described operation make (valid d) = submits (make d)
described operation make (invalid e) = completes_error operation e

unfoldable pub description_command :
    Readers → Request → Option Text → (SessionDescription → Command) → Checked Submission
unfolding small described
description_command readers r text make = do
  sdp ← required text (codes "session description")
  number ← small r.number (codes "Invalid session description type")
  valid (described r.operation make (parse_description readers.description sdp number))
