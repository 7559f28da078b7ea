-- ===== src/Runtime/Command.antt =====
-- `Command` of native/src/runtime.rs. The first two arguments of each command are the handle of the
-- operation and its timeout in milliseconds.
use kestara_webrtc.Base.{ℕ, Bool, true, false, Option, List, Text}
use kestara_webrtc.Registry.Types.{
  IceServer, SessionDescription, IceCandidateInit, PeerConfiguration, DataChannelConfiguration,
}

pub data Command : Type 0 where
  create_peer : (operation timeout : ℕ) → PeerConfiguration → Command
  create_description : (operation timeout peer : ℕ) (answer : Bool) → Command
  set_local_description : (operation timeout peer : ℕ) → SessionDescription → Command
  set_remote_description : (operation timeout peer : ℕ) → SessionDescription → Command
  add_ice_candidate : (operation timeout peer : ℕ) → IceCandidateInit → Command
  restart_ice : (operation timeout peer : ℕ) → Command
  set_configuration : (operation timeout peer : ℕ) → List IceServer → (relay_only : Bool) → Command
  create_data_channel : (operation timeout peer : ℕ) → DataChannelConfiguration → Command
  send_text : (operation timeout channel : ℕ) → Text → Command
  send_binary : (operation timeout channel : ℕ) → List ℕ → Command
  try_send_text : (operation timeout channel : ℕ) → Text → Command
  try_send_binary : (operation timeout channel : ℕ) → List ℕ → Command
  data_channel_writable : (operation timeout channel : ℕ) → Command
  data_channel_outstanding_bytes : (operation timeout channel : ℕ) → Command
  set_data_channel_thresholds : (operation timeout channel low high : ℕ) → Command
  get_stats : (operation timeout peer : ℕ) → Command
  close_data_channel : (operation timeout channel : ℕ) → Command
  close_peer : (operation timeout peer : ℕ) → Command
  rotate_certificate : (operation timeout : ℕ) → Option Text → Command
  shutdown : (operation timeout : ℕ) → Command

unfoldable pub operation_handle : Command → ℕ
operation_handle (create_peer o t c) = o
operation_handle (create_description o t p a) = o
operation_handle (set_local_description o t p d) = o
operation_handle (set_remote_description o t p d) = o
operation_handle (add_ice_candidate o t p c) = o
operation_handle (restart_ice o t p) = o
operation_handle (set_configuration o t p s r) = o
operation_handle (create_data_channel o t p c) = o
operation_handle (send_text o t c x) = o
operation_handle (send_binary o t c x) = o
operation_handle (try_send_text o t c x) = o
operation_handle (try_send_binary o t c x) = o
operation_handle (data_channel_writable o t c) = o
operation_handle (data_channel_outstanding_bytes o t c) = o
operation_handle (set_data_channel_thresholds o t c l h) = o
operation_handle (get_stats o t p) = o
operation_handle (close_data_channel o t c) = o
operation_handle (close_peer o t p) = o
operation_handle (rotate_certificate o t p) = o
operation_handle (shutdown o t) = o

abbrev pub is_shutdown : Command → Bool
is_shutdown (Command.shutdown o t) = true
is_shutdown _ = false
