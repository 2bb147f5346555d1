-- ===== src/Config/Network/Sound.antt =====
-- app/config.py, `NetworkSettings.validate`: what a validated setting can be started with.
use ser2net.Common.{
  Bool, true, false, not, ◌≡◌, refl, ◌≢◌, Option, none, some, arith, if◌then◌else◌,
}
use ser2net.Common.Result.{ok, raise_if, raise_if-ok, raise_if-pass, >>-ok}
use ser2net.Common.Texts.{same, same_iff, is_one_of}
use ser2net.Config.{
  bad_mode, bad_port, bad_protocol, reserved_bind_ip, Floats, Ip, World, at_least_int,
}
use ser2net.Config.Network.{
  net_modes, protocols, is_refused, NetworkSettings, listens, check_bind_ip, is_port,
  check_listener, check_target, check_endpoint, check_limits, check_protocol, check_tls, validate,
}

module _ (fl : Floats) (os : World) where
  -- RFC 2217 has one TCP client, and the Modbus gateway listens on TCP.
  abbrev pub FitsProtocol : NetworkSettings fl → Type 0
  FitsProtocol n =
      (n.protocol ≡ "rfc2217" → (n.mode ≢ "udp") × (at_least_int fl 2 n.max_connections ≡ false))
      × (n.protocol ≡ "modbus" → n.mode ≡ "server")

  -- TLS is on TCP, with a certificate and a key that exist.
  abbrev pub FitsTls : NetworkSettings fl → Type 0
  FitsTls n =
      n.tls ≡ true
      → (n.mode ≢ "udp") × (os.is_file n.tls_cert ≡ true) × (os.is_file n.tls_key ≡ true)

  -- A listener has an address that can be bound and a port.
  abbrev pub FitsListener : NetworkSettings fl → Type 0
  FitsListener n =
      listens fl n ≡ true
      → (ip : Ip) × (os.ip_address n.bind_ip ≡ some ip)
        × (is_refused ip ≡ false)
        × (is_port fl os n.port ≡ true)

  protocol_fits : (n : NetworkSettings fl) → check_protocol fl os n ≡ ok tt → FitsProtocol n
  protocol_fits n h = (
    λ e.
        let r = (same_iff n.protocol "rfc2217").1 e in
        (λ u. absurd (not_udp r ((same_iff n.mode "udp").1 u)), single r),
    λ e. (same_iff n.mode "server").0 (server ((same_iff n.protocol "modbus").1 e)),
  )
    where
      not_udp : same n.protocol "rfc2217" ≡ true → same n.mode "udp" ≡ true → ⊥
      not_udp r u = ground arith

      single : same n.protocol "rfc2217" ≡ true → at_least_int fl 2 n.max_connections ≡ false
      single r = ground arith

      server : same n.protocol "modbus" ≡ true → same n.mode "server" ≡ true
      server m = ground arith

  tls_fits :
      (n : NetworkSettings fl) (tls : Bool)
      → (if tls then check_tls fl os n else ok tt) ≡ ok tt
      → tls ≡ true
      → (n.mode ≢ "udp") × (os.is_file n.tls_cert ≡ true) × (os.is_file n.tls_key ≡ true)
  tls_fits n false h t = absurd (cc)
  tls_fits n true h t =
      (λ u. absurd (not_udp ((same_iff n.mode "udp").1 u)), ground arith, ground arith)
    where
      not_udp : same n.mode "udp" ≡ true → ⊥
      not_udp u = ground arith

  bind_ip_fits :
      (o : Option Ip)
      → check_bind_ip fl os o ≡ ok tt
      → (ip : Ip) × (o ≡ some ip) × (is_refused ip ≡ false)
  bind_ip_fits none h = absurd (cc)
  bind_ip_fits (some ip) h = (ip, refl, raise_if-ok reserved_bind_ip (is_refused ip) h)

  listener_fits :
      (n : NetworkSettings fl) (listening : Bool)
      → (if listening then check_listener fl os n else check_target fl os n) ≡ ok tt
      → listening ≡ true
      → (ip : Ip) × (os.ip_address n.bind_ip ≡ some ip)
        × (is_refused ip ≡ false)
        × (is_port fl os n.port ≡ true)
  listener_fits n false h l = absurd (cc)
  listener_fits n true h l =
      let (bound, port) = >>-ok (check_bind_ip fl os (os.ip_address n.bind_ip)) _ h in
      let (ip, found, free) = bind_ip_fits (os.ip_address n.bind_ip) bound in
      (ip, found, free, raise_if-pass bad_port (is_port fl os n.port) port)

  endpoint_fits : (n : NetworkSettings fl) → check_endpoint fl os n ≡ ok tt → FitsListener n
  endpoint_fits n h =
      let (mode, h1) = >>-ok (raise_if (not (is_one_of n.mode net_modes)) bad_mode) _ h in
      let (protocol, h2) =
        >>-ok (raise_if (not (is_one_of n.protocol protocols)) bad_protocol) _ h1 in
      listener_fits n (listens fl n) h2

  -- Network settings that validate fit their protocol, their TLS files and, if they listen, their
  -- address and port.
  pub network-validate_fits :
      (n : NetworkSettings fl)
      → validate fl os n ≡ ok tt
      → FitsListener n × FitsProtocol n × FitsTls n
  unfolding validate
  network-validate_fits n h =
      let (endpoint, h1) = >>-ok (check_endpoint fl os n) _ h in
      let (limits, h2) = >>-ok (check_limits fl os n) _ h1 in
      let (protocol, h3) = >>-ok (check_protocol fl os n) _ h2 in
      let (tls, clients) = >>-ok (if n.tls then check_tls fl os n else ok tt) _ h3 in
      (endpoint_fits n endpoint, protocol_fits n protocol, tls_fits n n.tls tls)
