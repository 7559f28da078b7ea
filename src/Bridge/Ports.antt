-- ===== src/Bridge/Ports.antt =====
-- The port range of a configuration that native/src/c_bridge.rs accepts.
use kestara_webrtc.Base.{
  ℕ, zero, suc, ◌+◌, ◌-◌, ◌^◌, ◌<◌, ◌≤◌, ◌≡◌, ◌≢◌, false, ◌||◌, [], Text, codes, ℤ, pos, negsuc,
  ltb, ◌==◌, ◌⊎◌, inl, inr, arith, Bool-cases, if◌then◌else◌,
}
use kestara_webrtc.Registry.Types.{IpAddr, PeerConfiguration}
use kestara_webrtc.Registry.Builder.{port_range, ports_from}
use kestara_webrtc.Bridge.Checked.{
  Checked, valid, invalid, Accepts, Accepts-bind, Accepts-then, accepted_one, ◌>>=◌,
}
use kestara_webrtc.Bridge.Arguments.{port}
use kestara_webrtc.Bridge.Configuration.{
  differ, PeerDto, checked_ports, checked_ice, checked_sctp, checked_dtls, peer_configuration,
}

-- No range, or a range of ports from 1 on.
abbrev pub IsRange : ℕ → ℕ → Type 0
IsRange low high = ((low ≡ 0) × (high ≡ 0)) ⊎ ((0 < low) × (low ≤ high) × (high < 2 ^ 16))

in_order :
    (low high : ℕ)
    → high < 2 ^ 16
    → (differ (low == 0) (high == 0) || ltb high low) ≡ false
    → IsRange low high
unfolding differ
in_order low high h e = elim (Bool-cases (low == 0)) [
  | inl z ↦ inl (ground arith, ground arith)
  | inr z ↦ inr (ground arith, ground arith, h)
]

pub test-IsRange :
    (low high : ℕ) (message : Text)
    → high < 2 ^ 16
    → Accepts
        (λ (p : ℕ × ℕ). IsRange p.0 p.1)
        (if differ (low == 0) (high == 0) || ltb high low
          then invalid message
          else valid (low, high))
test-IsRange low high message h =
    elim (Bool-cases (differ (low == 0) (high == 0) || ltb high low)) [
      | inl e ↦ rw e tt
      | inr e ↦ rw e (in_order low high h e)
    ]

pub port-Accepts : (z : ℤ) (name : Text) → Accepts (λ n. n < 2 ^ 16) (port z name)
unfolding port
port-Accepts (negsuc n) name = tt
port-Accepts (pos n) name = elim (Bool-cases (ltb n (2 ^ 16))) [
  | inl e ↦ rw e (ground arith)
  | inr e ↦ rw e tt
]

pub checked_ports-Accepts :
    (low high : ℤ) → Accepts (λ (p : ℕ × ℕ). IsRange p.0 p.1) (checked_ports low high)
unfolding checked_ports ◌>>=◌
checked_ports-Accepts low high =
    Accepts-bind _ (port low (codes "minimum")) _
      λ min_port. go min_port (port high (codes "maximum")) (port-Accepts high _)
  where
    go :
        (min_port : ℕ) (m : Checked ℕ)
        → Accepts (λ n. n < 2 ^ 16) m
        → Accepts
            (λ (p : ℕ × ℕ). IsRange p.0 p.1)
            (m >>= λ max_port.
              if differ (min_port == 0) (max_port == 0) || ltb max_port min_port
              then invalid (codes "Invalid UDP port range")
              else valid (min_port, max_port))
    go min_port (valid max_port) h = test-IsRange min_port max_port _ h
    go min_port (invalid e) h = tt

configuration-Accepts :
    (parse_ip : Text → Checked IpAddr) (value : PeerDto)
    → Accepts (λ c. IsRange c.min_port c.max_port) (peer_configuration parse_ip value)
unfolding peer_configuration
configuration-Accepts parse_ip value =
    Accepts-then _ (checked_ports value.min_port value.max_port) _ (checked_ports-Accepts _ _)
      λ range h. Accepts-bind _ (checked_ice parse_ip value) _ λ ice.
        Accepts-bind _ (checked_sctp value) _
          λ sctp. Accepts-bind _ (checked_dtls value) _ λ dtls. h

some_port : (low count : ℕ) → 0 < count → ports_from low count ≢ []
some_port low zero h e = absurd (omega arith)
some_port low (suc count) h e = ground arith

a_port : (low high : ℕ) → IsRange low high → port_range low high ≢ []
unfolding port_range
a_port low high (inl (a, b)) e = ground (arith, a, e)
a_port low high (inr (a, b, c)) e = ground (arith, e, some_port low (high + 1 - low) (omega arith))

-- A configuration that is accepted has no port range, both its ports being 0, or a range of ports from
-- 1 to 65535 whose bounds are not crossed. Either way `create_peer` has a port to try.
pub accepted_ports :
    (parse_ip : Text → Checked IpAddr) (value : PeerDto) (c : PeerConfiguration)
    → peer_configuration parse_ip value ≡ valid c
    → IsRange c.min_port c.max_port × (port_range c.min_port c.max_port ≢ [])
accepted_ports parse_ip value c e =
    let range : IsRange c.min_port c.max_port =
      accepted_one (λ k. IsRange k.min_port k.max_port) (configuration-Accepts parse_ip value) e in
    (range, a_port c.min_port c.max_port range)
