-- ===== src/Config/Tests.antt =====
-- Configurations that are accepted and refused, and the theorems at them. The floats are numbers.
use ser2net.Common.{
  ℕ, true, false, ◌≡◌, refl, ◌↔◌, none, some, [], ◌∷◌, arith, ltb, leb, ◌==◌, bytes_eq,
  if◌then◌else◌, All, Pairwise,
}
use ser2net.Common.Result.{ok, err}
use ser2net.Common.Int.{pos}
use ser2net.Common.Texts.{codes}
use ser2net.Config.{Floats, Ip, World, integer, real, device_clash, port_clash}
use ser2net.Config.Serial
use ser2net.Config.Network
use ser2net.Config.Options
use ser2net.Config.Options.{trace_file_name, text, legacy_seconds, is_timer}
use ser2net.Config.Options.TraceName.{IsPlain, trace_file_name-IsPlain}
use ser2net.Config.Mqtt
use ser2net.Config.Poll
use ser2net.Config.Mapping.{MappingConfig, validate}
use ser2net.Config.App.{check_mappings}
use ser2net.Config.App.Compatible.{IsValid, AreCompatible, check_mappings_iff}

abbrev pub whole_floats : Floats
whole_floats = record {
  F = ℕ;
  of_nat = λ n. n;
  parse = λ t. if bytes_eq t (codes "7.0") then some 7 else none;
  is_finite = λ x. true;
  as_int = λ x. some (pos x);
  below = λ x n. ltb x n;
  equals = λ x n. x == n;
  at_least = λ x n. leb n x;
  at_most = λ x n. leb x n;
  equals_1_5 = λ x. false;
  at_least_0_1 = λ x. leb 1 x;
}

abbrev any_ip : Ip
any_ip = record {
  version = 4;
  is_loopback = false;
  is_multicast = false;
  is_reserved = false;
  text = "0.0.0.0";
}

abbrev pub small_world : World
small_world = record {
  ip_address = λ s. if bytes_eq s (codes "0.0.0.0") then some any_ip else none;
  is_network = λ s. true;
  is_file = λ s. false;
  is_letter = λ c. false;
  decimal_digit = λ c. none;
  is_other_digit = λ c. c == 0xB2;
  service = λ s. if bytes_eq s (codes "telnet") then some 23 else none;
}

abbrev pub plant : MappingConfig whole_floats
plant = record {
  id = "a";
  name = codes "plant";
  enabled = true;
  kind = "net";
  serial = record (Serial.default_serial whole_floats) { port = codes "/dev/ttyS0" };
  serial_b = Serial.default_serial whole_floats;
  network = record (Network.default_network whole_floats) { protocol = "modbus" };
  options = Options.default_options whole_floats;
  mqtt = Mqtt.default_mqtt whole_floats;
  modbus_poll = record {
    interval_s = 5;
    points =
        record {
          name = "level";
          unit = integer (pos 1);
          fn = integer (pos 3);
          address = integer (pos 16);
          dtype = "uint16";
          scale = real 1;
          writable = true;
        }
        ∷ [];
  };
}

abbrev office : MappingConfig whole_floats
office = record plant {
  id = "b";
  name = codes "office";
  serial = record (Serial.default_serial whole_floats) { port = codes "/dev/ttyS1" };
  network = record (Network.default_network whole_floats) { port = integer (pos 4002) };
  modbus_poll = Poll.default_poll whole_floats;
}

pub plant_valid : validate whole_floats small_world plant ≡ ok tt
unfolding validate
plant_valid = refl

both_accepted : check_mappings whole_floats small_world [] [] (plant ∷ office ∷ []) ≡ ok tt
unfolding check_mappings
both_accepted = refl

-- The same device, or the same port, is refused.
one_device :
    check_mappings whole_floats small_world [] []
      (plant ∷ record office { serial = plant.serial } ∷ [])
    ≡ err device_clash
unfolding check_mappings
one_device = refl

one_port :
    check_mappings whole_floats small_world [] []
      (plant ∷ record office { network = Network.default_network whole_floats } ∷ [])
    ≡ err port_clash
unfolding check_mappings
one_port = refl

check_mappings_iff_example :
    (check_mappings whole_floats small_world [] [] (plant ∷ office ∷ []) ≡ ok tt) ↔ (
      All (IsValid whole_floats small_world) (plant ∷ office ∷ [])
      × Pairwise (AreCompatible whole_floats small_world) (plant ∷ office ∷ []))
check_mappings_iff_example = check_mappings_iff whole_floats small_world (plant ∷ office ∷ [])

traversal : trace_file_name small_world (codes "../../etc/..pass:wd") ≡ codes "pass_wd"
unfolding trace_file_name
traversal = refl

trace_file_name-IsPlain_example :
    IsPlain (trace_file_name small_world (codes "../../etc/..pass:wd"))
trace_file_name-IsPlain_example = trace_file_name-IsPlain small_world (codes "../../etc/..pass:wd")

whole_ordered :
    (x : ℕ) → whole_floats.is_finite x ≡ true → whole_floats.below x 0 ≡ false → leb 0 x ≡ true
whole_ordered x f n = ground arith
