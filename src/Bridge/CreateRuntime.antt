-- ===== src/Bridge/CreateRuntime.antt =====
-- The creation of a runtime by native/src/c_bridge.rs and by native/src/bridge.rs.
use kestara_webrtc.Base.{
  ℕ, ◌||◌, Bool, true, false, Option, List, Text, codes, ℤ, ltb, ◌==◌, if◌then◌else◌, ◌≡◌, refl,
}
use kestara_webrtc.Runtime.Table.{Runtimes}
use kestara_webrtc.Runtime.Create.{Host, RuntimeConfiguration, create}
use kestara_webrtc.Bridge.Checked.{
  Checked, valid, invalid, Accepts, Accepts-eq, Accepts-bind, Accepts-then, accepted_one, ◌>>=◌,
}
use kestara_webrtc.Bridge.Arguments.{port, handle_to_jlong}
use kestara_webrtc.Bridge.Configuration.{differ}
use kestara_webrtc.Bridge.Request.{Input, input}
use kestara_webrtc.Bridge.Jni.Values.{
  Native, returns, throws, jni_error, after, JString, JArray, read_string, read_string_array,
  operation_result, non_empty,
}
use kestara_webrtc.Bridge.Jni.Peer.{not_negative}
use kestara_webrtc.Bridge.Jni.Requests.{to_size}
use kestara_webrtc.Bridge.Jni.Same.Fields.{not_negative_size}
use kestara_webrtc.Bridge.Ports.{IsRange, test-IsRange, port-Accepts}

-- The fields as the JSON decoder has read them.
pub record RuntimeDto : Type 0 where
  pub worker_threads : ℕ
  pub reactor_threads : ℕ
  pub certificate_pem : Option Text
  pub shared_udp_addresses : List Text
  pub shared_tcp_addresses : List Text
  pub shared_min_port : ℤ
  pub shared_max_port : ℤ

unfoldable pub shared_ports : ℤ → ℤ → Checked (ℕ × ℕ)
unfolding differ
shared_ports low high = do
  min_port ← port low (codes "shared minimum")
  max_port ← port high (codes "shared maximum")
  if differ (min_port == 0) (max_port == 0) || ltb max_port min_port
      then invalid (codes "Invalid shared socket port range")
      else valid (min_port, max_port)

unfoldable pub runtime_configuration : RuntimeDto → Checked RuntimeConfiguration
runtime_configuration dto = do
  (min_port, max_port) ← shared_ports dto.shared_min_port dto.shared_max_port
  valid (record {
    worker_threads = dto.worker_threads;
    reactor_threads = dto.reactor_threads;
    certificate_pem = dto.certificate_pem;
    shared_udp_addresses = dto.shared_udp_addresses;
    shared_tcp_addresses = dto.shared_tcp_addresses;
    shared_min_port = min_port;
    shared_max_port = max_port;
  })

create_checked : Host → Checked RuntimeConfiguration → Runtimes → Checked ℕ × Runtimes
create_checked host (valid c) t = create host c t
create_checked host (invalid e) t = (invalid e, t)

-- `decode` is the JSON decoder.
decoded : (List ℕ → Checked RuntimeDto) → Input → Checked RuntimeConfiguration
decoded decode configuration = do
  json ← input configuration
  dto ← decode json
  runtime_configuration dto

unfoldable pub runtime_create :
    Host
    → (List ℕ → Checked RuntimeDto)
    → (runtime_out : Bool) → Input
    → Runtimes
    → Checked ℕ × Runtimes
unfolding create_checked decoded
runtime_create host decode false configuration t =
    (invalid (codes "The runtime output pointer is null"), t)
runtime_create host decode true configuration t =
    create_checked host (decoded decode configuration) t

-- The arguments of the native method, its strings read.
pub record RuntimeArguments : Type 0 where
  pub worker_threads : ℤ
  pub reactor_threads : ℤ
  pub certificate_pem : Text
  pub shared_udp_addresses : List Text
  pub shared_tcp_addresses : List Text
  pub shared_min_port : ℤ
  pub shared_max_port : ℤ

unfoldable pub native_runtime_configuration : RuntimeArguments → Checked RuntimeConfiguration
native_runtime_configuration a = do
  workers ← not_negative a.worker_threads (codes "The worker thread count must not be negative")
  reactors ← not_negative a.reactor_threads (codes "The reactor thread count must not be negative")
  (min_port, max_port) ← shared_ports a.shared_min_port a.shared_max_port
  valid (record {
    worker_threads = workers;
    reactor_threads = reactors;
    certificate_pem = non_empty a.certificate_pem;
    shared_udp_addresses = a.shared_udp_addresses;
    shared_tcp_addresses = a.shared_tcp_addresses;
    shared_min_port = min_port;
    shared_max_port = max_port;
  })

-- The handle that was created is given to Java as a `jlong`.
given_handle : Checked ℕ × Runtimes → Native ℤ × Runtimes
given_handle (valid h, t) = (operation_result (handle_to_jlong h), t)
given_handle (invalid e, t) = (throws e, t)

create_native : Host → Native RuntimeArguments → Runtimes → Native ℤ × Runtimes
unfolding given_handle create_checked
create_native host (returns a) t =
    given_handle (create_checked host (native_runtime_configuration a) t)
create_native host (throws e) t = (throws e, t)
create_native host jni_error t = (jni_error, t)

unfoldable pub native_create_runtime :
    Host
    → (worker_threads reactor_threads : ℤ) → (certificate_pem : JString) → (udp tcp : JArray)
    → (shared_min_port shared_max_port : ℤ) → Runtimes
    → Native ℤ × Runtimes
unfolding create_native
native_create_runtime host workers reactors pem udp tcp low high t =
    create_native host
      (after (read_string pem) λ text. after (read_string_array udp) λ udp_addresses.
        after (read_string_array tcp) λ tcp_addresses. returns (record {
          worker_threads = workers;
          reactor_threads = reactors;
          certificate_pem = text;
          shared_udp_addresses = udp_addresses;
          shared_tcp_addresses = tcp_addresses;
          shared_min_port = low;
          shared_max_port = high;
        }))
      t

-- The arguments as a DTO of the C ABI.
abbrev pub runtime_dto : RuntimeArguments → RuntimeDto
runtime_dto a = record {
  worker_threads = to_size a.worker_threads;
  reactor_threads = to_size a.reactor_threads;
  certificate_pem = non_empty a.certificate_pem;
  shared_udp_addresses = a.shared_udp_addresses;
  shared_tcp_addresses = a.shared_tcp_addresses;
  shared_min_port = a.shared_min_port;
  shared_max_port = a.shared_max_port;
}

module _ (a : RuntimeArguments) where
  abbrev Agrees : RuntimeConfiguration → Type 0
  Agrees c =
      (runtime_configuration (runtime_dto a) ≡ valid c)
      × IsRange c.shared_min_port c.shared_max_port

  shared_ports-Accepts :
      (low high : ℤ) → Accepts (λ (p : ℕ × ℕ). IsRange p.0 p.1) (shared_ports low high)
  unfolding shared_ports
  shared_ports-Accepts low high = Accepts-bind _ (port low (codes "shared minimum")) _ λ min_port.
      Accepts-then _ (port high (codes "shared maximum")) _ (port-Accepts high _)
        λ max_port h. test-IsRange min_port max_port _ h

  arguments-Agrees : Accepts Agrees (native_runtime_configuration a)
  unfolding native_runtime_configuration runtime_configuration ◌>>=◌
  arguments-Agrees =
      Accepts-eq Agrees
        (not_negative a.worker_threads (codes "The worker thread count must not be negative")) _
        λ workers ew.
          Accepts-eq Agrees
            (not_negative a.reactor_threads (codes "The reactor thread count must not be negative"))
            _
            λ reactors er.
              Accepts-eq Agrees (shared_ports a.shared_min_port a.shared_max_port) _ λ ports ep. (
                rw
                    (
                      ep,
                      not_negative_size a.worker_threads _ workers ew,
                      not_negative_size a.reactor_threads _ reactors er,
                    )
                    refl,
                accepted_one (λ p. IsRange p.0 p.1)
                    (shared_ports-Accepts a.shared_min_port a.shared_max_port) ep,
              )

-- The configuration of a runtime that the native method accepts is accepted by the C ABI, and is the
-- same; its ports are none or a range from 1 to 65535 whose bounds are not crossed.
pub runtime_configurations_agree :
    (a : RuntimeArguments) (c : RuntimeConfiguration)
    → native_runtime_configuration a ≡ valid c
    → (runtime_configuration (runtime_dto a) ≡ valid c)
      × IsRange c.shared_min_port c.shared_max_port
runtime_configurations_agree a c e = accepted_one (Agrees a) (arguments-Agrees a) e
