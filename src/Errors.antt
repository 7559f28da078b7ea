-- ===== src/Errors.antt =====
-- The `String` errors of native/src/registry.rs and native/src/runtime.rs, one constructor for each
-- message, and the text that each stands for; `given` is the text of an error from elsewhere.
use kestara_webrtc.Base.{ℕ, ◌++◌, Text, codes}
use kestara_webrtc.Base.Strings.{decimal}

-- What was being done when a library call failed: the message's prefix.
pub data Attempt : Type 0 where
  creating_peer creating_description setting_local_description setting_remote_description : Attempt
  adding_candidate restarting_ice updating_configuration creating_channel sending_text : Attempt
  sending_data becoming_writable reading_outstanding setting_low_threshold : Attempt
  setting_high_threshold closing_channel closing_peer generating_key : Attempt
  generating_certificate importing_certificate : Attempt

pub data Error : Type 0 where
  failed : Attempt → Text → Error
  bind_failed : Text → Error
  no_port_in_range : ℕ → ℕ → Text → Error
  no_shared_port : Text → Error
  invalid_shared_address : Text → Text → Error
  unknown_peer : ℕ → Error
  unknown_channel : ℕ → Error
  registry_poisoned certificate_poisoned no_fingerprint : Error
  timed_out shutdown_timed_out invalid_shutdown : Error
  no_peer_entry no_transport_entry stats_string_too_large too_many_channels : Error
  clock_before_epoch : Text → Error
  given : Text → Error

pub attempt_text : Attempt → Text
attempt_text creating_peer = codes "Failed to create peer connection: "
attempt_text creating_description = codes "Failed to create session description: "
attempt_text setting_local_description = codes "Failed to set local description: "
attempt_text setting_remote_description = codes "Failed to set remote description: "
attempt_text adding_candidate = codes "Failed to add ICE candidate: "
attempt_text restarting_ice = codes "Failed to restart ICE: "
attempt_text updating_configuration = codes "Failed to update peer configuration: "
attempt_text creating_channel = codes "Failed to create DataChannel: "
attempt_text sending_text = codes "Failed to send DataChannel text: "
attempt_text sending_data = codes "Failed to send DataChannel data: "
attempt_text becoming_writable = codes "DataChannel cannot become writable: "
attempt_text reading_outstanding = codes "Failed to read DataChannel outstanding bytes: "
attempt_text setting_low_threshold = codes "Failed to set DataChannel low threshold: "
attempt_text setting_high_threshold = codes "Failed to set DataChannel high threshold: "
attempt_text closing_channel = codes "Failed to close DataChannel: "
attempt_text closing_peer = codes "Failed to close peer connection: "
attempt_text generating_key = codes "Failed to generate the runtime DTLS key: "
attempt_text generating_certificate = codes "Failed to generate the runtime DTLS certificate: "
attempt_text importing_certificate = codes "Failed to import the runtime DTLS certificate: "

unfoldable pub message : Error → Text
unfolding attempt_text
message (failed a text) = attempt_text a ++ text
message (bind_failed text) = codes "Failed to bind peer connection transports: " ++ text
message (no_port_in_range low high text) =
    codes "No transport port is available in the configured range "
    ++ (decimal low ++ (codes "-" ++ (decimal high ++ (codes ": " ++ text))))
message (no_shared_port text) = codes "No shared transport port is available: " ++ text
message (invalid_shared_address host text) =
    codes "Invalid shared bind address " ++ (host ++ (codes ": " ++ text))
message (unknown_peer h) = codes "Unknown peer connection handle: " ++ decimal h
message (unknown_channel h) = codes "Unknown DataChannel handle: " ++ decimal h
message registry_poisoned = codes "Kestara WebRTC handle registry is poisoned"
message certificate_poisoned = codes "The runtime DTLS certificate lock is poisoned"
message no_fingerprint = codes "The runtime DTLS certificate has no fingerprint"
message timed_out = codes "WebRTC operation timed out"
message shutdown_timed_out = codes "WebRTC runtime shutdown timed out"
message invalid_shutdown = codes "Invalid asynchronous shutdown command"
message no_peer_entry = codes "The native stats report has no peer connection entry"
message no_transport_entry = codes "The native stats report has no transport entry"
message stats_string_too_large = codes "Native stats string is too large"
message too_many_channels = codes "Too many DataChannel stats entries"
message (clock_before_epoch text) = codes "The system clock is before the Unix epoch: " ++ text
message (given text) = text
