-- ===== src/Examples/Ports.antt =====
-- The theorems on `create_peer` of native/src/registry.rs at work: a range whose first port is taken.
use kestara_webrtc.Base.{◌≡◌, refl, true, false, none, some, [], ◌∷◌, Text, codes, if◌then◌else◌}
use kestara_webrtc.Base.{length, ◌==◌}
use kestara_webrtc.Base.Strings.{contains}
use kestara_webrtc.Errors.{no_port_in_range}
use kestara_webrtc.Registry.Types.{PeerConfiguration, disabled, udp4}
use kestara_webrtc.Registry.State.{Engine, good, bad}
use kestara_webrtc.Registry.Task.{done, fails}
use kestara_webrtc.Registry.Access.{issue}
use kestara_webrtc.Registry.Builder.{port_range, is_bind_error, add_peer, create_peer}
use kestara_webrtc.Registry.Builder.Ports.{
  try_call, try_calls, AllTaken, create_peer_binds, create_peer_exhausted,
}
use kestara_webrtc.Registry.Runs.{Alone}
use kestara_webrtc.Examples.{engine, sample}

abbrev in_use : Text
in_use = codes "no udp_sockets or tcp_listeners available"

-- The first build finds its port taken.
abbrev crowded : Engine
crowded = record engine { built = λ calls. if length calls == 1 then bad in_use else good 30 }

crowded-Alone : Alone crowded
crowded-Alone = record { still = λ s. refl; in_time = λ calls. refl }

abbrev two_ports : PeerConfiguration
two_ports = record {
  ice_servers = [];
  min_port = 5000;
  max_port = 5001;
  relay_only = false;
  ice = record {
    disconnected_timeout = none;
    failed_timeout = none;
    keep_alive_interval = none;
    check_interval = none;
    max_binding_requests = none;
    host_acceptance_min_wait = none;
    server_reflexive_acceptance_min_wait = none;
    peer_reflexive_acceptance_min_wait = none;
    relay_acceptance_min_wait = none;
    network_types = udp4 ∷ [];
    mdns_mode = disabled;
    mdns_query_timeout = none;
    lite = false;
    nat_mapping = none;
    discard_local_candidates_on_restart = false;
    candidate_pool_size = 0;
    include_loopback_candidate = false;
    mdns_local_name = none;
    mdns_local_address = none;
    credentials = none;
  };
  sctp = record {
    send_buffer_limit = 65536;
    receive_buffer_size = 65536;
    maximum_message_size = 65536;
    receive_queue_capacity = 4;
  };
  dtls = record {
    answering_role = none;
    media_level_fingerprints = false;
    replay_protection_window = 64;
    cipher_suites = [];
  };
  transport = record { udp_bind_addresses = []; tcp_bind_addresses = []; receive_mtu = 1460 };
}

abbrev one_port : PeerConfiguration
one_port = record two_ports { max_port = 5000 }

in_use-is_bind_error : is_bind_error in_use ≡ true
unfolding is_bind_error contains
in_use-is_bind_error = refl

first_taken :
    (c : PeerConfiguration) → AllTaken crowded c 4 sample [] none (5000 ∷ []) (some in_use)
first_taken c = AllTaken.one_taken in_use refl refl in_use-is_bind_error AllTaken.no_more

create_peer_binds_example : create_peer crowded two_ports sample ≡ (
  done 4,
  add_peer 4
      (record { peer = 30; receive_queue_capacity = 4 })
      (record (issue sample) {
        trace =
            try_call crowded two_ports 4 sample 5001
            ∷ try_calls crowded two_ports 4 sample (5000 ∷ []) [];
      }),
)
unfolding port_range
create_peer_binds_example =
    create_peer_binds crowded two_ports sample (5000 ∷ []) 5001 [] (some in_use) 30 crowded-Alone
      refl refl refl (first_taken two_ports) refl

create_peer_exhausted_example : create_peer crowded one_port sample ≡ (
  fails (no_port_in_range 5000 5000 in_use),
  record (issue sample) { trace = try_calls crowded one_port 4 sample (5000 ∷ []) [] },
)
unfolding port_range
create_peer_exhausted_example =
    create_peer_exhausted crowded one_port sample (some in_use) crowded-Alone refl refl refl
      (first_taken one_port)
