-- ===== src/Examples/Runtimes.antt =====
-- The theorems on the table of runtimes, their creation and their shared sockets at work.
use kestara_webrtc.Base.{
  ℕ, ◌≡◌, refl, none, some, [], ◌∷◌, ◌++◌, Text, codes, ◌==◌, if◌then◌else◌, arith,
}
use kestara_webrtc.Registry.Types.{IpAddr, v4}
use kestara_webrtc.Registry.Task.{or_failed, pure}
use kestara_webrtc.Runtime.Certificate.{choose_certificate, import_certificate}
use kestara_webrtc.Runtime.Execute.{settle}
use kestara_webrtc.Runtime.Table
use kestara_webrtc.Runtime.Table.{Runtimes, Controller, request, get_runtime, found, serve}
use kestara_webrtc.Runtime.Sockets.{
  Addresses, Parse, parse_none, parse_one, Taken, no_more, one_taken, create_socket_mux,
  shared_port_chosen, shared_ports_exhausted,
}
use kestara_webrtc.Registry.Builder.{port_range}
use kestara_webrtc.Runtime.Create.{
  Host, RuntimeConfiguration, create, initial_certificate, with_certificate, start, enter,
  build_runtime,
}
use kestara_webrtc.Runtime.Handles.{
  History, begins, creates, asks, no_runtimes, Descends, Owned, handles_never_reused,
}
use kestara_webrtc.Bridge.Checked.{Checked, valid, invalid, ◌>>=◌}
use kestara_webrtc.Examples.{engine}

abbrev reads_v4 : Text → Checked IpAddr
reads_v4 text = valid (v4 text)

abbrev host_ip : Text
host_ip = codes "10.0.0.1"

abbrev first_port : Addresses → ℕ
first_port [] = 0
first_port ((ip, port) ∷ more) = port

-- Port 5000 is in use.
abbrev binds : (udp tcp : Addresses) → Checked ℕ
binds udp tcp = if first_port udp == 5000 then invalid (codes "in use") else valid 9

one_host : Parse reads_v4 (host_ip ∷ []) (v4 host_ip ∷ [])
one_host = parse_one refl parse_none

range_is : port_range 5000 5001 ≡ (5000 ∷ []) ++ (5001 ∷ [])
unfolding port_range
range_is = refl

shared_port_chosen_example :
    create_socket_mux reads_v4 binds (host_ip ∷ []) [] 5000 5001 ≡ valid (some 9)
shared_port_chosen_example =
    shared_port_chosen reads_v4 binds (host_ip ∷ []) [] (v4 host_ip ∷ []) [] 5000 5001 (5000 ∷ [])
      [] 5001 9 (some (codes "in use")) refl one_host parse_none range_is
      (one_taken (codes "in use") refl no_more) refl

one_port :
    Taken reads_v4 binds one_host parse_none none (port_range 5000 5000) (some (codes "in use"))
unfolding port_range
one_port = one_taken (codes "in use") refl no_more

shared_ports_exhausted_example :
    create_socket_mux reads_v4 binds (host_ip ∷ []) [] 5000 5000
    ≡ invalid (codes "No shared transport port is available: " ++ codes "in use")
shared_ports_exhausted_example =
    shared_ports_exhausted reads_v4 binds (host_ip ∷ []) [] (v4 host_ip ∷ []) [] 5000 5000
      (codes "in use") refl one_host parse_none one_port

abbrev machine : Host
machine = record {
  engine = engine;
  spawns = λ handle. valid tt;
  builds = λ workers. valid tt;
  parse_ip = reads_v4;
  bind = binds;
  stops = none;
}

abbrev plain : RuntimeConfiguration
plain = record {
  worker_threads = 2;
  reactor_threads = 1;
  certificate_pem = some (codes "mine");
  shared_udp_addresses = [];
  shared_tcp_addresses = [];
  shared_min_port = 0;
  shared_max_port = 0;
}

created_one : (create machine plain no_runtimes).0 ≡ valid 1
unfolding create with_certificate initial_certificate settle choose_certificate import_certificate
    or_failed pure enter start ◌>>=◌ build_runtime create_socket_mux
created_one = refl

abbrev history : History (request 1 Table.release (create machine plain no_runtimes).1).1 (1 ∷ [])
history = asks 1 Table.release (creates machine plain 1 begins (omega arith) created_one)

handles_never_reused_example :
    let t = (request 1 Table.release (create machine plain no_runtimes).1).1 in
    Descends t.next_runtime (1 ∷ []) × Owned t (1 ∷ [])
handles_never_reused_example = handles_never_reused history
