-- ===== src/Config/Mapping.antt =====
-- app/config.py, `MappingConfig`.
pub mod Sound
use ser2net.Common.{ℕ, bytes_eq, Bool, true, false, not, ◌&&◌, List, [], ◌∷◌, if◌then◌else◌}
use ser2net.Common.Result.{Result, ◌>>=◌, ◌>>◌, raise_if}
use ser2net.Common.Texts.{same, is_one_of, all_space}
use Prim.Native.String.{String}
use ser2net.Config.{
  ConfigError, name_required, bad_kind, same_ports, poll_needs_modbus, sparkplug_needs_points,
  Floats, World,
}
use ser2net.Config.Serial
use ser2net.Config.Network
use ser2net.Config.Options
use ser2net.Config.Mqtt
use ser2net.Config.Poll

abbrev pub mapping_kinds : List String
mapping_kinds = "net" ∷ "serialbridge" ∷ []

abbrev pub has_points {ℓ} : {A : Type ℓ} → List A → Bool
has_points [] = false
has_points (p ∷ ps) = true

module _ (fl : Floats) where
  pub record MappingConfig : Type 0 where
    pub id : String
    pub name : List ℕ
    pub enabled : Bool
    pub kind : String
    pub serial : Serial.SerialSettings fl
    pub serial_b : Serial.SerialSettings fl
    pub network : Network.NetworkSettings fl
    pub options : Options.MappingOptions fl
    pub mqtt : Mqtt.MqttSettings fl
    pub modbus_poll : Poll.ModbusPoll fl

module _ (fl : Floats) (os : World) where
  abbrev pub check_kind : MappingConfig fl → Result ConfigError (Unit {0})
  check_kind m =
      if same m.kind "serialbridge"
      then (do
        Serial.validate fl m.serial_b
        raise_if (bytes_eq m.serial_b.port m.serial.port) same_ports)
      else Network.validate fl os m.network

  unfoldable pub validate : MappingConfig fl → Result ConfigError (Unit {0})
  unfolding Serial.validate Network.validate Options.validate Mqtt.validate Poll.validate
  validate m = do
    raise_if (all_space m.name) name_required
    raise_if (not (is_one_of m.kind mapping_kinds)) bad_kind
    Serial.validate fl m.serial
    check_kind m
    Options.validate fl m.options
    Mqtt.validate fl m.mqtt
    Poll.validate fl m.modbus_poll
    raise_if
        (has_points m.modbus_poll.points
          && not (same m.kind "net" && same m.network.protocol "modbus"))
        poll_needs_modbus
    raise_if
        (m.mqtt.enabled
          && same m.mqtt.payload_format "sparkplug_b"
          && not (has_points m.modbus_poll.points))
        sparkplug_needs_points
