-- ===== src/Examples/Bridge.antt =====
-- The theorems on the checks of native/src/c_bridge.rs and native/src/bridge.rs at work.
use kestara_webrtc.Base.{
  ℕ, Text, ◌≡◌, ◌≢◌, refl, true, false, none, some, List, [], ◌∷◌, pos, negsuc, arith,
}
use kestara_webrtc.Registry.Types.{
  NetworkType, CipherSuite, v4, PeerConfiguration, disabled, udp4, ecdsa_aes_128_gcm,
}
use kestara_webrtc.Registry.Builder.{port_range}
use kestara_webrtc.Runtime.Command
use kestara_webrtc.Bridge.Checked.{valid, invalid, ◌>>=◌}
use kestara_webrtc.Bridge.Arguments.{
  network_types, cipher_suites, port, optional_duration, optional_u16, positive_u32, timeout,
}
use kestara_webrtc.Bridge.Masks.{
  network_bit, suite_bit, mask_of, ascends, network_types_read, cipher_suites_read,
}
use kestara_webrtc.Bridge.Configuration.{
  PeerDto, differ, checked_ports, checked_ice, checked_sctp, checked_dtls, peer_configuration,
}
use kestara_webrtc.Bridge.Ports.{IsRange, accepted_ports}
use kestara_webrtc.Bridge.Request.{
  Request, Readers, submits, null, input, optional_string, command_kind,
}
use kestara_webrtc.Bridge.Submit.{command_of, submission}
use kestara_webrtc.Map
use kestara_webrtc.Runtime.Table
use kestara_webrtc.Examples.Commands.{two_runtimes}
use kestara_webrtc.Bridge.Boundary.{Ran, ran, runtime_submit, asked}
use kestara_webrtc.Bridge.Memory.{Memory, Promised, Restores, call, free_all, texts_owned}
use kestara_webrtc.Bridge.Operations.{answers_for, submission_answers}

network_types_read_example :
    (types : List NetworkType) × (network_types (pos 5) ≡ valid types)
    × (mask_of network_bit types ≡ 5)
    × (ascends network_bit 0 types ≡ true)
network_types_read_example = network_types_read 5 (omega arith) (omega arith)

cipher_suites_read_example :
    (suites : List CipherSuite) × (cipher_suites (pos 129) ≡ valid suites)
    × (mask_of suite_bit suites ≡ 129)
    × (ascends suite_bit 0 suites ≡ true)
cipher_suites_read_example = cipher_suites_read 129 (omega arith) (omega arith)

abbrev dto : PeerDto
dto = record {
  ice_servers = [];
  min_port = pos 5000;
  max_port = pos 5001;
  relay_only = false;
  disconnected_timeout_millis = negsuc 0;
  failed_timeout_millis = pos 1000;
  keep_alive_interval_millis = negsuc 0;
  check_interval_millis = negsuc 0;
  max_binding_requests = negsuc 0;
  host_acceptance_min_wait_millis = negsuc 0;
  server_reflexive_acceptance_min_wait_millis = negsuc 0;
  peer_reflexive_acceptance_min_wait_millis = negsuc 0;
  relay_acceptance_min_wait_millis = negsuc 0;
  network_type_mask = pos 1;
  mdns_mode = pos 0;
  mdns_query_timeout_millis = negsuc 0;
  ice_lite = false;
  nat_mapping = none;
  discard_local_candidates_on_restart = false;
  candidate_pool_size = 0;
  include_loopback_candidate = false;
  mdns_local_name = none;
  mdns_local_address = none;
  credentials = none;
  sctp_send_buffer_limit = 65536;
  sctp_receive_buffer_size = pos 65536;
  sctp_maximum_message_size = pos 65536;
  receive_queue_capacity = 4;
  dtls_answering_role = pos 0;
  media_level_fingerprints = false;
  dtls_replay_protection_window = 64;
  dtls_cipher_suite_mask = pos 4;
  udp_bind_addresses = [];
  tcp_bind_addresses = [];
  receive_mtu = 1460;
}

abbrev pub accepted_dto : PeerConfiguration
accepted_dto = record {
  ice_servers = [];
  min_port = 5000;
  max_port = 5001;
  relay_only = false;
  ice = record {
    disconnected_timeout = none;
    failed_timeout = some 1000;
    keep_alive_interval = none;
    check_interval = none;
    max_binding_requests = none;
    host_acceptance_min_wait = none;
    server_reflexive_acceptance_min_wait = none;
    peer_reflexive_acceptance_min_wait = none;
    relay_acceptance_min_wait = none;
    network_types = udp4 ∷ [];
    mdns_mode = disabled;
    mdns_query_timeout = none;
    lite = false;
    nat_mapping = none;
    discard_local_candidates_on_restart = false;
    candidate_pool_size = 0;
    include_loopback_candidate = false;
    mdns_local_name = none;
    mdns_local_address = none;
    credentials = none;
  };
  sctp = record {
    send_buffer_limit = 65536;
    receive_buffer_size = 65536;
    maximum_message_size = 65536;
    receive_queue_capacity = 4;
  };
  dtls = record {
    answering_role = none;
    media_level_fingerprints = false;
    replay_protection_window = 64;
    cipher_suites = ecdsa_aes_128_gcm ∷ [];
  };
  transport = record { udp_bind_addresses = []; tcp_bind_addresses = []; receive_mtu = 1460 };
}

dto_is_accepted : peer_configuration (λ text. valid (v4 text)) dto ≡ valid accepted_dto
unfolding peer_configuration checked_ports checked_ice checked_sctp checked_dtls differ port
    optional_duration optional_u16 positive_u32 network_types cipher_suites ◌>>=◌
dto_is_accepted = refl

accepted_ports_example : IsRange 5000 5001 × (port_range 5000 5001 ≢ [])
accepted_ports_example = accepted_ports (λ text. valid (v4 text)) dto accepted_dto dto_is_accepted

abbrev pub readers : Readers
readers = record {
  peer_dto = λ bytes. valid dto;
  channel_dto = λ bytes. invalid bytes;
  description = λ kind text. invalid text;
  address = λ text. valid (v4 text);
  utf8_error = λ bytes. [];
}

abbrev restart_request : Request
restart_request = record {
  operation = 7;
  kind = pos 2;
  target = 1;
  timeout_millis = pos 1000;
  text = null 0;
  secondary_text = null 0;
  number = pos 0;
  secondary_number = pos 0;
  data_bytes = null 0;
  configuration = null 0;
}

restart_is_accepted :
    submission readers restart_request ≡ valid (submits (Command.restart_ice 7 1000 1))
unfolding submission timeout optional_string input command_kind command_of ◌>>=◌
restart_is_accepted = refl

submission_answers_example :
    let what = submits (Command.restart_ice 7 1000 1) in
    (answers_for what ≡ 7)
    × (runtime_submit readers 1 restart_request two_runtimes
        ≡ Table.request 1 (asked what) two_runtimes)
submission_answers_example =
    submission_answers readers restart_request (submits (Command.restart_ice 7 1000 1)) 1
      two_runtimes restart_is_accepted

abbrev one_block : Memory
one_block = (7, 1 ∷ []) ∷ []

abbrev at_nine : Memory → ℕ
at_nine m = 9

nine_is_free : Map.get 9 one_block ≡ none
unfolding Map.get
nine_is_free = refl

abbrev two_bytes : Ran Text
two_bytes = ran (valid (65 ∷ 66 ∷ []))

texts_owned_example :
    Promised true true two_bytes (call at_nine true true two_bytes one_block)
    × Restores (free_all (call at_nine true true two_bytes one_block)) one_block
texts_owned_example = texts_owned at_nine one_block true true two_bytes refl nine_is_free
