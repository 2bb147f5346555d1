-- ===== src/Config/App.antt =====
-- app/config.py, `AppConfig.validate`: what the mappings must not share. The dict `serial_owner` is
-- the list of its assignments, the latest first, since the source only looks devices up in it.
pub mod Owners
pub mod Clashes
pub mod Compatible
use ser2net.Common.{
  is_nil, bytes_eq, ℕ, Bool, true, false, not, ◌&&◌, ◌||◌, Option, none, some, List, [], ◌∷◌, ◌++◌,
  ◌==◌, if◌then◌else◌,
}
use ser2net.Common.Result.{Result, ok, ◌>>=◌, ◌>>◌, raise_if}
use ser2net.Common.Int.{pos, negsuc}
use ser2net.Common.Texts.{same, is_any_of, codes}
use Prim.Native.String.{String}
use ser2net.Config.{
  ConfigError, device_clash, port_clash, Floats, World, Scalar, boolean, integer, real, other,
}
use ser2net.Config.Network.{listens}
use ser2net.Config.Mapping.{MappingConfig, validate}

-- A device, the id of the mapping that has it, and its name.
pub record Owner : Type 0 where
  pub device : List ℕ
  pub id : String
  pub name : List ℕ

abbrev pub owner_of : List ℕ → List Owner → Option Owner
owner_of device [] = none
owner_of device (o ∷ owners) = if bytes_eq o.device device then some o else owner_of device owners

-- `prev is not None and prev[0] != m.id`
abbrev pub check_owner : Option Owner → String → Result ConfigError (Unit {0})
check_owner none id = ok tt
check_owner (some prev) id = raise_if (not (same prev.id id)) device_clash

unfoldable pub claim :
    List Owner → String → List ℕ → List (List ℕ) → Result ConfigError (List Owner)
claim owners id name [] = ok owners
claim owners id name (device ∷ devices) = do
  check_owner (owner_of device owners) id
  claim (record { device = device; id = id; name = name } ∷ owners) id name devices

abbrev pub wildcards : List (List ℕ)
wildcards = codes "0.0.0.0" ∷ codes "::" ∷ []

unfoldable pub ip_overlaps : List ℕ → List ℕ → Bool
ip_overlaps a b = bytes_eq a b || (is_any_of a wildcards || is_any_of b wildcards)

-- A key of the dict `seen`.
pub record Listener : Type 0 where
  pub is_udp : Bool
  pub bind_ip : List ℕ
  pub port : ℕ

abbrev pub same_flag : Bool → Bool → Bool
same_flag true b = b
same_flag false b = not b

unfoldable pub clashes : Listener → Listener → Bool
unfolding ip_overlaps
clashes l k = same_flag l.is_udp k.is_udp && (l.port == k.port && ip_overlaps l.bind_ip k.bind_ip)

unfoldable pub check_listeners : List Listener → Listener → Result ConfigError (Unit {0})
unfolding clashes
check_listeners [] l = ok tt
check_listeners (s ∷ seen) l = do raise_if (clashes s l) port_clash; check_listeners seen l

abbrev pub when {ℓ} : {A : Type ℓ} → Bool → A → List A
when true a = a ∷ []
when false a = []

module _ (fl : Floats) where
  -- The number that a validated port is.
  abbrev pub port_number : Scalar fl → ℕ
  port_number (boolean true) = 1
  port_number (boolean false) = 0
  port_number (integer (pos n)) = n
  port_number (integer (negsuc n)) = 0
  port_number (real x) = 0
  port_number other = 0

  abbrev pub named_devices : MappingConfig fl → List (List ℕ)
  named_devices m =
      when (not (is_nil m.serial.port) && not m.serial.matched) m.serial.port
      ++ when
          (same m.kind "serialbridge" && (not (is_nil m.serial_b.port) && not m.serial_b.matched))
          m.serial_b.port

  -- The devices that a mapping takes, if it is enabled.
  unfoldable pub devices_of : MappingConfig fl → List (List ℕ)
  devices_of m = if m.enabled then named_devices m else []

  abbrev pub listener : MappingConfig fl → Listener
  listener m = record {
    is_udp = same m.network.mode "udp";
    bind_ip = m.network.bind_ip;
    port = port_number m.network.port;
  }

  -- The address that it listens on, if it does.
  unfoldable pub listeners_of : MappingConfig fl → List Listener
  listeners_of m = when (same m.kind "net" && listens fl m.network) (listener m)

module _ (fl : Floats) (os : World) where
  abbrev pub check_free : List Listener → List Listener → Result ConfigError (Unit {0})
  check_free seen [] = ok tt
  check_free seen (l ∷ ls) = do check_listeners seen l; check_free seen ls

  -- The loop over the mappings, with `serial_owner` and `seen`.
  unfoldable pub check_mappings :
      List Owner → List Listener → List (MappingConfig fl) → Result ConfigError (Unit {0})
  unfolding validate claim devices_of listeners_of check_listeners
  check_mappings owners seen [] = ok tt
  check_mappings owners seen (m ∷ ms) = do
    validate fl os m
    owners' ← claim owners m.id m.name (devices_of fl m)
    check_free seen (listeners_of fl m)
    check_mappings owners' (seen ++ listeners_of fl m) ms
