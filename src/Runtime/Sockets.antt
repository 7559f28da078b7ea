-- ===== src/Runtime/Sockets.antt =====
-- `create_socket_mux` and `socket_addresses` of native/src/runtime.rs: the shared sockets of a runtime.
use kestara_webrtc.Base.{
  ℕ, ◌&&◌, false, Option, none, some, List, [], ◌∷◌, ◌++◌, Text, codes, is_empty, if◌then◌else◌,
  ◌≡◌, refl, sym, ◌∙◌, ap,
}
use mathlib.Core.List.{append-nil}
use kestara_webrtc.Errors.{message, no_shared_port, invalid_shared_address}
use kestara_webrtc.Registry.Types.{IpAddr}
use kestara_webrtc.Registry.Builder.{port_range, or_unknown}
use kestara_webrtc.Bridge.Checked.{Checked, valid, invalid, ◌>>=◌}

abbrev pub Addresses : Type 0
Addresses = List (IpAddr × ℕ)

-- `SharedSocketMux::bind` of the library, with the text of its error. A mux is a number that names it.
abbrev pub Bind : Type 0
Bind = (udp tcp : Addresses) → Checked ℕ

socket_address : ℕ → Text → Checked IpAddr → Checked (IpAddr × ℕ)
socket_address port host (valid ip) = valid (ip, port)
socket_address port host (invalid e) = invalid (message (invalid_shared_address host e))

module _ (parse_ip : Text → Checked IpAddr) where
  -- The first host that is no address is the error.
  unfoldable pub socket_addresses : List Text → ℕ → Checked Addresses
  unfolding socket_address
  socket_addresses [] port = valid []
  socket_addresses (host ∷ hosts) port = do
    address ← socket_address port host (parse_ip host)
    rest ← socket_addresses hosts port
    valid (address ∷ rest)

  module _ (bind : Bind) (udp_hosts tcp_hosts : List Text) where
    after_bind : (Option Text → Checked (Option ℕ)) → Checked ℕ → Checked (Option ℕ)
    after_bind next (valid mux) = valid (some mux)
    after_bind next (invalid e) = next (some e)

    -- The loop over the ports, given the last error.
    unfoldable pub try_shared : List ℕ → Option Text → Checked (Option ℕ)
    unfolding after_bind
    try_shared [] last = invalid (message (no_shared_port (or_unknown last)))
    try_shared (port ∷ ports) last = do
      udp ← socket_addresses udp_hosts port
      tcp ← socket_addresses tcp_hosts port
      after_bind (try_shared ports) (bind udp tcp)

    -- No mux is needed when there is no host.
    unfoldable pub create_socket_mux : (min_port max_port : ℕ) → Checked (Option ℕ)
    create_socket_mux min_port max_port =
        if is_empty udp_hosts && is_empty tcp_hosts
        then valid none
        else try_shared (port_range min_port max_port) none

  -- The hosts are the addresses `ips`.
  pub data Parse : List Text → List IpAddr → Type 0 where
    parse_none : Parse [] []
    parse_one :
        {host : Text} {hosts : List Text} {ip : IpAddr} {ips : List IpAddr}
        → parse_ip host ≡ valid ip
        → Parse hosts ips
        → Parse (host ∷ hosts) (ip ∷ ips)

  abbrev pub at_port : ℕ → List IpAddr → Addresses
  at_port port [] = []
  at_port port (ip ∷ ips) = (ip, port) ∷ at_port port ips

  parsed_addresses :
      {hosts : List Text} {ips : List IpAddr} (port : ℕ)
      → Parse hosts ips
      → socket_addresses hosts port ≡ valid (at_port port ips)
  unfolding socket_addresses socket_address ◌>>=◌
  parsed_addresses port parse_none = refl
  parsed_addresses port (parse_one e more) = rw (e, parsed_addresses port more) refl

  module _ (bind : Bind) {udp_hosts tcp_hosts : List Text} {udp tcp : List IpAddr}
      (parses_udp : Parse udp_hosts udp) (parses_tcp : Parse tcp_hosts tcp) where
    try_shared-step :
        (port : ℕ) (ports : List ℕ) (last : Option Text)
        → try_shared bind udp_hosts tcp_hosts (port ∷ ports) last
          ≡ after_bind bind udp_hosts tcp_hosts
              (try_shared bind udp_hosts tcp_hosts ports)
              (bind (at_port port udp) (at_port port tcp))
    unfolding try_shared ◌>>=◌
    try_shared-step port ports last =
        rw (parsed_addresses port parses_udp, parsed_addresses port parses_tcp) refl

    -- None of the ports can be bound; `final` is the error of the last.
    pub data Taken : Option Text → List ℕ → Option Text → Type 0 where
      no_more : {last : Option Text} → Taken last [] last
      one_taken :
          {last final : Option Text} {port : ℕ} {ports : List ℕ} (e : Text)
          → bind (at_port port udp) (at_port port tcp) ≡ invalid e
          → Taken (some e) ports final
          → Taken last (port ∷ ports) final

    skip_taken :
        {last final : Option Text} {before : List ℕ} (rest : List ℕ)
        → Taken last before final
        → try_shared bind udp_hosts tcp_hosts (before ++ rest) last
          ≡ try_shared bind udp_hosts tcp_hosts rest final
    unfolding after_bind
    skip_taken rest no_more = refl
    skip_taken {last = last} rest (one_taken {port = port} {ports = ports} e taken more) =
        try_shared-step port (ports ++ rest) last ∙ rw taken (skip_taken rest more)

    -- Some host is there, so that a mux is wanted.
    abbrev Wanted : Type 0
    Wanted = (is_empty udp_hosts && is_empty tcp_hosts) ≡ false

    chosen :
        {last final : Option Text} (before after : List ℕ) (port mux : ℕ)
        → Taken last before final
        → bind (at_port port udp) (at_port port tcp) ≡ valid mux
        → try_shared bind udp_hosts tcp_hosts (before ++ (port ∷ after)) last ≡ valid (some mux)
    unfolding after_bind
    chosen {final = final} before after port mux taken e =
        skip_taken (port ∷ after) taken ∙ (try_shared-step port after final ∙ rw e refl)

-- The shared sockets are bound at the first port of the range where all of them can be: every address of
-- both lists, at that one port. Some host is given, the hosts are addresses, and the ports before it are
-- refused by the library.
pub shared_port_chosen :
    (parse_ip : Text → Checked IpAddr) (bind : Bind) (udp_hosts tcp_hosts : List Text)
    (udp tcp : List IpAddr) (low high : ℕ) (before after : List ℕ) (port mux : ℕ)
    (final : Option Text)
    → (is_empty udp_hosts && is_empty tcp_hosts) ≡ false
    → (parses_udp : Parse parse_ip udp_hosts udp) → (parses_tcp : Parse parse_ip tcp_hosts tcp)
    → port_range low high ≡ before ++ (port ∷ after)
    → Taken parse_ip bind parses_udp parses_tcp none before final
    → bind (at_port parse_ip port udp) (at_port parse_ip port tcp) ≡ valid mux
    → create_socket_mux parse_ip bind udp_hosts tcp_hosts low high ≡ valid (some mux)
unfolding create_socket_mux
shared_port_chosen parse_ip bind udp_hosts tcp_hosts udp tcp low high before after port mux final
      wanted pu pt ports taken e =
    rw (wanted, ports) (chosen parse_ip bind pu pt before after port mux taken e)

-- When the library refuses every port of the range, the error of the last port is reported.
pub shared_ports_exhausted :
    (parse_ip : Text → Checked IpAddr) (bind : Bind) (udp_hosts tcp_hosts : List Text)
    (udp tcp : List IpAddr) (low high : ℕ) (e : Text)
    → (is_empty udp_hosts && is_empty tcp_hosts) ≡ false
    → (parses_udp : Parse parse_ip udp_hosts udp) → (parses_tcp : Parse parse_ip tcp_hosts tcp)
    → Taken parse_ip bind parses_udp parses_tcp none (port_range low high) (some e)
    → create_socket_mux parse_ip bind udp_hosts tcp_hosts low high
      ≡ invalid (codes "No shared transport port is available: " ++ e)
unfolding create_socket_mux try_shared message
shared_ports_exhausted parse_ip bind udp_hosts tcp_hosts udp tcp low high e wanted pu pt taken =
    rw wanted (
      ap (λ ports. try_shared parse_ip bind udp_hosts tcp_hosts ports none) (sym (append-nil _))
      ∙ skip_taken parse_ip bind pu pt [] taken)
