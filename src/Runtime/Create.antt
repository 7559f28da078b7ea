-- ===== src/Runtime/Create.antt =====
-- `create` of native/src/runtime.rs with the start of `run_runtime`, up to the first command.
use kestara_webrtc.Base.{
  ℕ, ◌+◌, ◌%◌, ◌^◌, true, false, Option, none, some, List, [], Text, codes, ◌++◌, ◌==◌,
  if◌then◌else◌,
}
use kestara_webrtc.Errors.{message}
use kestara_webrtc.Events.{Result, ok, err}
use kestara_webrtc.Map
use kestara_webrtc.Registry.Types.{IpAddr}
use kestara_webrtc.Registry.State.{RuntimeState, Engine, new_state}
use kestara_webrtc.Runtime.Certificate.{choose_certificate}
use kestara_webrtc.Runtime.Execute.{settle}
use kestara_webrtc.Runtime.Table.{Controller, Runtimes, returns_well}
use kestara_webrtc.Runtime.Sockets.{Bind, create_socket_mux}
use kestara_webrtc.Bridge.Checked.{Checked, valid, invalid, ◌>>=◌}

pub record RuntimeConfiguration : Type 0 where
  pub worker_threads : ℕ
  pub reactor_threads : ℕ
  pub certificate_pem : Option Text
  pub shared_udp_addresses : List Text
  pub shared_tcp_addresses : List Text
  pub shared_min_port : ℕ
  pub shared_max_port : ℕ

-- What the system and the libraries answer: the start of the thread, the build of the runtime for a
-- number of worker threads, the parser of addresses and the bind of the shared sockets. `stops` tells
-- that the thread ends before it reports, with the text of the receiver's error.
pub record Host : Type 0 where
  pub engine : Engine
  pub spawns : ℕ → Checked (Unit {0})
  pub builds : ℕ → Checked (Unit {0})
  pub parse_ip : Text → Checked IpAddr
  pub bind : Bind
  pub stops : Option Text

of_result : Result Text → Checked Text
of_result (ok certificate) = valid certificate
of_result (err e) = invalid (message e)

-- The certificate is imported, or generated. Nothing is waited for, so that no state matters.
unfoldable pub initial_certificate : Engine → Option Text → Checked Text
unfolding of_result
initial_certificate eng pem = of_result (settle (choose_certificate eng pem (new_state [] none)).0)

-- `build_runtime`
unfoldable pub build_runtime : Host → ℕ → Checked (Unit {0})
build_runtime host workers = elim (host.builds workers) [
  | valid u ↦ valid u
  | invalid e ↦ invalid (codes "Failed to start the WebRTC runtime: " ++ e)
]

-- `run_runtime` up to its report: the state with which the control loop starts.
unfoldable pub start : Host → RuntimeConfiguration → (certificate : Text) → Checked RuntimeState
start host c certificate = do
  u ← build_runtime host c.worker_threads
  mux ←
      create_socket_mux host.parse_ip host.bind c.shared_udp_addresses c.shared_tcp_addresses
        c.shared_min_port c.shared_max_port
  valid (new_state certificate mux)

-- What the receiver of the report gets.
reported : Option Text → Checked RuntimeState → Checked RuntimeState
reported none report = report
reported (some e) report =
    invalid (codes "The WebRTC runtime controller stopped during startup: " ++ e)

spawned : Checked (Unit {0}) → Checked RuntimeState → Checked RuntimeState
spawned (valid u) report = report
spawned (invalid e) report = invalid (codes "Failed to start the WebRTC runtime controller: " ++ e)

abbrev pub new_controller : Text → Controller
new_controller certificate = record {
  commands = [];
  accepting = true;
  events = [];
  certificate = certificate;
  certificate_poisoned = false;
  buffers = [];
  buffers_poisoned = false;
  thread = returns_well;
}

-- The end of `create`: the controller is entered in the table.
unfoldable pub enter :
    ℕ → (certificate : Text) → Checked RuntimeState → Runtimes → Checked ℕ × Runtimes
enter handle certificate (invalid e) t = (invalid e, t)
enter handle certificate (valid state) t =
    if t.poisoned then (invalid (codes "The WebRTC runtime registry is poisoned"), t) else (
      valid handle,
      record t { runtimes = Map.insert handle (new_controller certificate) t.runtimes },
    )

-- The handle is taken once there is a certificate, whatever follows.
unfoldable pub with_certificate :
    Host → RuntimeConfiguration → Checked Text → Runtimes → Checked ℕ × Runtimes
unfolding reported spawned
with_certificate host c (invalid e) t = (invalid e, t)
with_certificate host c (valid certificate) t =
    let handle = t.next_runtime in
    enter handle certificate
      (spawned (host.spawns handle) (reported host.stops (start host c certificate)))
      (record t { next_runtime = (handle + 1) % 2 ^ 64 })

unfoldable pub create : Host → RuntimeConfiguration → Runtimes → Checked ℕ × Runtimes
create host c t =
    if c.worker_threads == 0
    then (invalid (codes "The WebRTC runtime must have at least one worker thread"), t)
    else with_certificate host c (initial_certificate host.engine c.certificate_pem) t
