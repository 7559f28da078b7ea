-- ===== src/Examples/Jni.antt =====
-- The theorems on the native methods of native/src/bridge.rs at work.
use kestara_webrtc.Base.{
  ◌<◌, ◌-◌, ◌^◌, ◌≡◌, refl, true, false, none, some, [], ◌∷◌, codes, pos, negsuc, arith,
}
use kestara_webrtc.Base.Strings.{text_eq}
use kestara_webrtc.Base.Utf8.{from_utf8_lossy, ascii_kept}
use kestara_webrtc.Events.{NativeEvent, channel_event}
use kestara_webrtc.Events.Kind
use kestara_webrtc.Map
use kestara_webrtc.Registry.Types.{v4}
use kestara_webrtc.Runtime.Command.{Command}
use kestara_webrtc.Runtime.Create.{RuntimeConfiguration}
use kestara_webrtc.Runtime.Table.{Controller, Runtimes}
use kestara_webrtc.Bridge.Checked.{valid, ◌>>=◌}
use kestara_webrtc.Bridge.Arguments.{
  timeout, handle_from_jlong, network_types, cipher_suites, port, optional_duration, optional_u16,
  positive_u32,
}
use kestara_webrtc.Bridge.Configuration.{
  differ, checked_ports, checked_mdns_mode, checked_address, checked_role,
}
use kestara_webrtc.Bridge.Ports.{IsRange}
use kestara_webrtc.Bridge.Request.{submits}
use kestara_webrtc.Bridge.Boundary.{runtime_submit}
use kestara_webrtc.Bridge.CreateRuntime.{
  RuntimeArguments, runtime_dto, shared_ports, runtime_configuration, native_runtime_configuration,
  runtime_configurations_agree,
}
use kestara_webrtc.Bridge.Jni.Values.{
  returns, java_string, Call, after, read_string, operation_result, non_empty,
}
use kestara_webrtc.Bridge.Jni.Calls.{
  submit_send_text, with_handles, refuse_when, check_servers, relay_policy, zip_servers,
}
use kestara_webrtc.Bridge.Jni.Peer.{
  PeerTexts, PeerNumbers, nat_mapping, not_negative, positive_size, candidate_pool, ice_credentials,
  check_sizes, create_peer_configuration,
}
use kestara_webrtc.Bridge.Jni.Methods.{
  NativeCall, native_call, submit_native, void, native_release_buffer,
}
use kestara_webrtc.Bridge.Jni.Poll.{java_event, shown, native_poll_runtime_event}
use kestara_webrtc.Registry.Delivery.{Buffer}
use kestara_webrtc.Runtime.Table
use kestara_webrtc.Runtime.Table.{request, set_runtime}
use kestara_webrtc.Runtime.Table.Kept.{Uses, unused, uses}
use kestara_webrtc.Bridge.Jni.Buffers.{poll_gives, buffer_at, message_kept_until_released}
use kestara_webrtc.Bridge.Jni.Polls.{seen, decoded, with_bytes, polls_agree}
use kestara_webrtc.Bridge.Boundary.{runtime_poll}
use kestara_webrtc.Bridge.Jni.Poll.{JvmNativeEvent}
use kestara_webrtc.Bridge.Jni.Requests.{c_request}
use kestara_webrtc.Bridge.Jni.Same.Peer.{Within, accepted_sizes}
use kestara_webrtc.Bridge.Jni.Equivalent.{bridges_agree}
use kestara_webrtc.Examples.Bridge.{readers, accepted_dto}
use kestara_webrtc.Examples.Commands.{idle, two_runtimes}

abbrev hello : NativeCall
hello = NativeCall.send_text (pos 1) (pos 7) (pos 2) (java_string (codes "hello")) (pos 1000)

abbrev hello_call : Call
hello_call = record { runtime = 1; what = submits (Command.send_text 7 1000 2 (codes "hello")) }

hello_is_accepted : native_call readers hello ≡ returns hello_call
unfolding native_call submit_send_text after read_string operation_result with_handles
    handle_from_jlong timeout ◌>>=◌
hello_is_accepted = refl

hello-IsText : text_eq (from_utf8_lossy (codes "hello")) (codes "hello") ≡ true
unfolding text_eq
hello-IsText = rw (ascii_kept (codes "hello") (refl, (refl, (refl, (refl, (refl, tt)))))) refl

bridges_agree_example :
    submit_native readers hello two_runtimes
    ≡ void (runtime_submit readers 1 (c_request [] hello) two_runtimes)
bridges_agree_example =
    bridges_agree readers [] hello hello_call two_runtimes hello-IsText hello_is_accepted

abbrev message : NativeEvent
message = record (channel_event Kind.data_channel_binary 1 2) {
  payload = some (1 ∷ 2 ∷ 3 ∷ []);
  delivery_permit = some 2;
}

abbrev with_message : Controller
with_message = record idle { events = message ∷ [] }

abbrev one_message : Runtimes
one_message = record two_runtimes { runtimes = (1, with_message) ∷ [] }

message_is_queued : Map.get 1 one_message.runtimes ≡ some with_message
unfolding Map.get
message_is_queued = refl

abbrev after_poll : Runtimes
after_poll = (native_poll_runtime_event (pos 1) (pos 0) one_message).1

-- Another buffer is made before the release.
abbrev another : Runtimes
another = (request 1 (Table.register_delivery_buffer (some (4 ∷ [])) 2) after_poll).1

abbrev kept : Buffer
kept = record { bytes = 1 ∷ 2 ∷ 3 ∷ []; delivery_permit = some 2 }

two_made : after_poll.next_buffer < 2 ^ 64 - 1
unfolding set_runtime channel_event
two_made =
    rw
      (
        after_poll,
        poll_gives 1 2 0 with_message one_message message [] refl message_is_queued refl refl refl
            refl (omega arith),
      )
      (omega arith)

between : Uses 1 1 kept after_poll another
between = uses 1 (Table.register_delivery_buffer (some (4 ∷ [])) 2) unused tt two_made

message_kept_until_released_example :
    let released = native_release_buffer (pos 1) (pos 1) another in
    ((native_poll_runtime_event (pos 1) (pos 0) one_message).0
      ≡ returns (some (java_event message (pos 1) none (shown message))))
    × (buffer_at 1 1 another ≡ some kept)
    × (released.0 ≡ returns tt)
    × (buffer_at 1 1 released.1 ≡ none)
unfolding channel_event
message_kept_until_released_example =
    message_kept_until_released 1 2 0 with_message one_message another message [] refl
      message_is_queued refl refl refl refl (omega arith) between

abbrev texts : PeerTexts
texts = record {
  urls = [];
  usernames = [];
  credentials = [];
  nat_addresses = [];
  mdns_local_name = [];
  mdns_local_address = [];
  ice_username_fragment = [];
  ice_password = [];
  udp_bind_addresses = [];
  tcp_bind_addresses = [];
}

abbrev numbers : PeerNumbers
numbers = record {
  min_port = pos 5000;
  max_port = pos 5001;
  ice_transport_policy = pos 0;
  disconnected_timeout_millis = negsuc 0;
  failed_timeout_millis = pos 1000;
  keep_alive_interval_millis = negsuc 0;
  check_interval_millis = negsuc 0;
  max_binding_requests = negsuc 0;
  host_acceptance_min_wait_millis = negsuc 0;
  server_reflexive_acceptance_min_wait_millis = negsuc 0;
  peer_reflexive_acceptance_min_wait_millis = negsuc 0;
  relay_acceptance_min_wait_millis = negsuc 0;
  network_type_mask = pos 1;
  mdns_mode = pos 0;
  mdns_query_timeout_millis = negsuc 0;
  ice_lite = false;
  nat_mapping_type = negsuc 0;
  discard_local_candidates_on_restart = false;
  candidate_pool_size = pos 0;
  include_loopback_candidate = false;
  sctp_send_buffer_limit = pos 65536;
  sctp_receive_buffer_size = pos 65536;
  sctp_maximum_message_size = pos 65536;
  data_channel_receive_queue_capacity = pos 4;
  dtls_answering_role = pos 0;
  media_level_fingerprints = false;
  dtls_replay_protection_window = pos 64;
  dtls_cipher_suite_mask = pos 4;
  receive_mtu = pos 1460;
  timeout_millis = pos 1000;
}

numbers_are_accepted :
    create_peer_configuration (λ text. valid (v4 text)) texts numbers ≡ valid (1000, accepted_dto)
unfolding create_peer_configuration check_servers refuse_when checked_ports differ port relay_policy
    network_types checked_mdns_mode nat_mapping positive_u32 positive_size not_negative check_sizes
    timeout checked_role checked_address non_empty ice_credentials optional_duration optional_u16
    candidate_pool cipher_suites zip_servers ◌>>=◌
numbers_are_accepted = refl

accepted_sizes_example : Within accepted_dto
accepted_sizes_example =
    accepted_sizes (λ text. valid (v4 text)) texts numbers 1000 accepted_dto numbers_are_accepted

abbrev arguments : RuntimeArguments
arguments = record {
  worker_threads = pos 2;
  reactor_threads = pos 1;
  certificate_pem = [];
  shared_udp_addresses = [];
  shared_tcp_addresses = [];
  shared_min_port = pos 5000;
  shared_max_port = pos 5001;
}

abbrev configured : RuntimeConfiguration
configured = record {
  worker_threads = 2;
  reactor_threads = 1;
  certificate_pem = none;
  shared_udp_addresses = [];
  shared_tcp_addresses = [];
  shared_min_port = 5000;
  shared_max_port = 5001;
}

arguments_are_accepted : native_runtime_configuration arguments ≡ valid configured
unfolding native_runtime_configuration not_negative shared_ports differ port non_empty ◌>>=◌
arguments_are_accepted = refl

runtime_configurations_agree_example :
    (runtime_configuration (runtime_dto arguments) ≡ valid configured) × IsRange 5000 5001
runtime_configurations_agree_example =
    runtime_configurations_agree arguments configured arguments_are_accepted

polls_agree_example :
    (o : JvmNativeEvent) × ((native_poll_runtime_event (pos 1) (pos 0) one_message).0
      ≡ returns (some o))
    × (decoded (runtime_poll true 1 (pos 0) one_message).0 ≡ some (seen o))
unfolding channel_event
polls_agree_example =
    polls_agree 1 0 with_message one_message message [] refl message_is_queued refl refl refl
      (record {
        kind = omega arith;
        peer_handle = omega arith;
        channel_handle = omega arith;
        operation_handle = omega arith;
        number = omega arith;
      })
      (with_bytes 2 (1 ∷ 2 ∷ 3 ∷ []) refl refl refl) (omega arith) (omega arith) (omega arith)
      (omega arith)
