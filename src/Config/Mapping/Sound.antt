-- ===== src/Config/Mapping/Sound.antt =====
-- app/config.py, `MappingConfig.validate`: what holds of a validated mapping.
use ser2net.Common.{
  Bool, true, false, not, ◌&&◌, ◌≡◌, refl, ◌≢◌, bytes_eq, All, Pairwise, if◌then◌else◌,
}
use ser2net.Common.Result.{ok, ◌>>◌, raise_if, raise_if-ok, >>-ok}
use ser2net.Common.Texts.{same, same_iff, is_one_of, all_space, bytes_eq_iff}
use ser2net.Config.{name_required, bad_kind, same_ports, poll_needs_modbus, Floats, World}
use ser2net.Config.Serial
use ser2net.Config.Network
use ser2net.Config.Network.Sound.{FitsListener, FitsProtocol, FitsTls, network-validate_fits}
use ser2net.Config.Options
use ser2net.Config.Mqtt
use ser2net.Config.Poll
use ser2net.Config.Poll.Names.{IsWellTyped, poll-validate_fits}
use ser2net.Config.Mapping.{MappingConfig, mapping_kinds, has_points, check_kind, validate}

polls_modbus :
    (points net modbus : Bool)
    → (points && not (net && modbus)) ≡ false
    → points ≡ true
    → (net ≡ true) × (modbus ≡ true)
polls_modbus true true true h e = (refl, refl)
polls_modbus true true false h e = absurd (cc)
polls_modbus true false modbus h e = absurd (cc)
polls_modbus false net modbus h e = absurd (cc)

module _ (fl : Floats) (os : World) where
  kind_fits :
      (m : MappingConfig fl) (bridge : Bool)
      → (if bridge
          then Serial.validate fl m.serial_b
            >> raise_if (bytes_eq m.serial_b.port m.serial.port) same_ports
          else Network.validate fl os m.network)
        ≡ ok tt
      → (bridge ≡ true → bytes_eq m.serial_b.port m.serial.port ≡ false)
        × (bridge ≡ false → Network.validate fl os m.network ≡ ok tt)
  kind_fits m true h =
      let (serial, apart) = >>-ok (Serial.validate fl m.serial_b) _ h in
      (λ e. raise_if-ok same_ports _ apart, λ e. absurd (cc))
  kind_fits m false h = (λ e. absurd (cc), λ e. h)

  -- A validated mapping bridges two different serial ports, or has network settings that fit. If it
  -- polls points, it is a Modbus gateway that listens on TCP, and the points fit and have different
  -- names.
  pub mapping-validate_fits :
      (m : MappingConfig fl)
      → validate fl os m ≡ ok tt
      → (m.kind ≡ "serialbridge" → m.serial_b.port ≢ m.serial.port)
        × (m.kind ≡ "net"
            → FitsListener fl os m.network × FitsProtocol fl os m.network × FitsTls fl os m.network)
        × (has_points m.modbus_poll.points ≡ true
            → (m.kind ≡ "net") × (m.network.protocol ≡ "modbus") × (m.network.mode ≡ "server"))
        × All (IsWellTyped fl) m.modbus_poll.points
        × Pairwise (λ p q. p.name ≢ q.name) m.modbus_poll.points
  unfolding validate
  mapping-validate_fits m h =
      let points = has_points m.modbus_poll.points in
      let modbus = same m.network.protocol "modbus" in
      let (named, h1) = >>-ok (raise_if (all_space m.name) name_required) _ h in
      let (known, h2) = >>-ok (raise_if (not (is_one_of m.kind mapping_kinds)) bad_kind) _ h1 in
      let (serial, h3) = >>-ok (Serial.validate fl m.serial) _ h2 in
      let (kind, h4) = >>-ok (check_kind fl os m) _ h3 in
      let (options, h5) = >>-ok (Options.validate fl m.options) _ h4 in
      let (mqtt, h6) = >>-ok (Mqtt.validate fl m.mqtt) _ h5 in
      let (poll, h7) = >>-ok (Poll.validate fl m.modbus_poll) _ h6 in
      let (gateway, sparkplug) =
        >>-ok (raise_if (points && not (same m.kind "net" && modbus)) poll_needs_modbus) _ h7 in
      let (bridge, net) = kind_fits m (same m.kind "serialbridge") kind in
      let (types, names) = poll-validate_fits fl m.modbus_poll poll in
      let settings : m.kind ≡ "net"
          → FitsListener fl os m.network × FitsProtocol fl os m.network × FitsTls fl os m.network =
        λ e. network-validate_fits fl os m.network (net (rw (e) refl)) in
      (
        λ e q. absurd (
            cc (
              bridge ((same_iff m.kind "serialbridge").1 e),
              (bytes_eq_iff m.serial_b.port m.serial.port).1 q,
            )),
        settings,
        λ e.
            let (is_net, is_modbus) =
              polls_modbus points (same m.kind "net") modbus
                (raise_if-ok poll_needs_modbus _ gateway) e in
            let kind_net = (same_iff m.kind "net").0 is_net in
            let protocol = (same_iff m.network.protocol "modbus").0 is_modbus in
            (kind_net, protocol, (settings kind_net).1.1 protocol),
        types,
        names,
      )
