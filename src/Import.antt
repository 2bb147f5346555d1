-- ===== src/Import.antt =====
-- app/ser2net_import.py: one connection of a ser2net configuration on its way to a mapping. Its
-- dicts are the settings of app/config.py, since a key that is not in a dict gets the default there.
-- Strings are lists of code points. Of the messages, which one and about what.
pub mod Text
pub mod Listen
pub mod Settings
pub mod Device
pub mod Strings
pub mod Finish
pub mod Yaml
pub mod Document
pub mod Narrow
pub mod Assemble
pub mod Apply
mod Tests
use ser2net.Common.{
  ℕ, ◌+◌, Bool, true, false, Option, none, List, [], ◌∷◌, ◌++◌, bytes_eq, if◌then◌else◌,
}
use ser2net.Common.Int.{pos}
use ser2net.Common.Texts.{codes, is_any_of}
use Prim.Native.String.{String}
use ser2net.Config.{Floats, World, integer}
use ser2net.Config.Serial.{SerialSettings, default_serial}
use ser2net.Config.Network.{NetworkSettings, default_network}
use ser2net.Config.Options.{MappingOptions, default_options, normalise, scalar}
use ser2net.Config.Mqtt.{default_mqtt}
use ser2net.Config.Poll.{default_poll}
use ser2net.Config.Mapping.{MappingConfig}

-- The exception of `int`, which ends an import.
pub data ValueError : Type 0 where
  no_int : ValueError

-- What a connection's notes say.
pub data Note : Type 0 where
  skipped_for : Note → Note
  no_port : Note
  bad_listen_port : List ℕ → Note
  first_address_only : List ℕ → Note
  ipv6_loopback : List ℕ → Note
  unusable_address : List ℕ → Note
  not_a_flag : List ℕ → List ℕ → Note
  bad_max_connections : List ℕ → Note
  timeout_capped : List ℕ → Note
  bad_timeout : List ℕ → Note
  one_flow_control : Note
  no_protocol_over_udp : String → Note
  rfc2217_single : Note
  remaddr_lost : Note
  dropped_options : List (List ℕ) → Note
  sctp_as_tcp tls_lost certauth_lost : Note
  layer_lost : List ℕ → Note
  not_an_accepter : List ℕ → Note
  connect_back : List ℕ → Note
  not_an_address : List ℕ → Note
  port_not_checked : List ℕ → Note
  no_device dev_as_serial local_lost : Note
  fixed_text : List ℕ → List (List ℕ) → List ℕ → Note
  left_out : Bool → List ℕ → List (List ℕ) → Note
  one_direction : List ℕ → Note
  file_reference unknown_reference : ℕ → List ℕ → Note
  not_single_value bad_enable : List ℕ → Note
  not_a_map two_ends_needed options_not_a_map : Note
  trace_renamed : List ℕ → List ℕ → Note
  second_trace : List ℕ → Note
  connector_layer_lost not_a_connector no_flag_value not_on_off rs485_lost : List ℕ → Note

-- What a text is: no two notes of different texts have one key. The numbers stand outside Unicode.
abbrev pub mark : ℕ → ℕ
mark n = 0x110000 + n

abbrev pub joined : List (List ℕ) → List ℕ
joined [] = []
joined (t ∷ ts) = t ++ (mark 0 ∷ joined ts)

abbrev pub note_key : Note → List ℕ
note_key (skipped_for n) = mark 1 ∷ note_key n
note_key no_port = mark 2 ∷ []
note_key (bad_listen_port t) = mark 3 ∷ t
note_key (first_address_only t) = mark 4 ∷ t
note_key (ipv6_loopback t) = mark 5 ∷ t
note_key (unusable_address t) = mark 6 ∷ t
note_key (not_a_flag k t) = mark 7 ∷ joined (k ∷ t ∷ [])
note_key (bad_max_connections t) = mark 8 ∷ t
note_key (timeout_capped t) = mark 9 ∷ t
note_key (bad_timeout t) = mark 10 ∷ t
note_key one_flow_control = mark 11 ∷ []
note_key (no_protocol_over_udp p) = mark 12 ∷ codes p
note_key rfc2217_single = mark 13 ∷ []
note_key remaddr_lost = mark 14 ∷ []
note_key (dropped_options ts) = mark 15 ∷ joined ts
note_key sctp_as_tcp = mark 16 ∷ []
note_key tls_lost = mark 17 ∷ []
note_key certauth_lost = mark 18 ∷ []
note_key (layer_lost t) = mark 19 ∷ t
note_key (not_an_accepter t) = mark 20 ∷ t
note_key (connect_back t) = mark 21 ∷ t
note_key (not_an_address t) = mark 22 ∷ t
note_key (port_not_checked t) = mark 23 ∷ t
note_key no_device = mark 24 ∷ []
note_key dev_as_serial = mark 25 ∷ []
note_key local_lost = mark 26 ∷ []
note_key (connector_layer_lost t) = mark 27 ∷ t
note_key (not_a_connector t) = mark 28 ∷ t
note_key (no_flag_value t) = mark 29 ∷ t
note_key (not_on_off t) = mark 30 ∷ t
note_key (rs485_lost t) = mark 31 ∷ t
note_key (fixed_text what escapes t) = mark 32 ∷ joined (what ∷ t ∷ escapes)
note_key (left_out true what parts) = mark 33 ∷ joined (what ∷ parts)
note_key (left_out false what parts) = mark 34 ∷ joined (what ∷ parts)
note_key (one_direction t) = mark 35 ∷ t
note_key (trace_renamed name path) = mark 36 ∷ joined (name ∷ path ∷ [])
note_key (second_trace t) = mark 37 ∷ t
note_key (file_reference ch ref) = mark 38 ∷ ch ∷ ref
note_key (unknown_reference ch ref) = mark 39 ∷ ch ∷ ref
note_key (not_single_value t) = mark 40 ∷ t
note_key (bad_enable t) = mark 41 ∷ t
note_key not_a_map = mark 42 ∷ []
note_key two_ends_needed = mark 43 ∷ []
note_key options_not_a_map = mark 44 ∷ []

abbrev pub add_once : Note → List Note → List Note
add_once n [] = n ∷ []
add_once n (m ∷ notes) =
    let rest = add_once n notes in
    if bytes_eq (note_key n) (note_key m) then m ∷ notes else m ∷ rest

module _ (fl : Floats) where
  pub record Conn : Type 0 where
    pub name : List ℕ
    pub label : List ℕ
    pub v3 : Bool
    pub enabled : Bool
    pub device : List ℕ
    pub serial : SerialSettings fl
    pub network : NetworkSettings fl
    pub options : MappingOptions fl
    pub xonxoff : Bool
    pub rtscts : Bool
    pub strings : List (List ℕ × List ℕ)
    pub traces : List (List ℕ × List ℕ)
    pub trace_mods : List ((List ℕ × List ℕ) × Bool)
    pub access_given : Bool
    pub hold : Option Note
    pub remctl : Bool
    pub dropped : List (List ℕ)
    pub notes : List Note
    pub skipped : List Note

  -- `_Conn(name, label, v3)`. The dict of the network starts with port 0.
  abbrev pub new_conn : List ℕ → List ℕ → Bool → Conn
  new_conn name label v3 = record {
    name = name;
    label = label;
    v3 = v3;
    enabled = true;
    device = [];
    serial = default_serial fl;
    network = record (default_network fl) { port = integer (pos 0) };
    options = default_options fl;
    xonxoff = false;
    rtscts = false;
    strings = [];
    traces = [];
    trace_mods = [];
    access_given = false;
    hold = none;
    remctl = false;
    dropped = [];
    notes = [];
    skipped = [];
  }

  -- `MappingConfig.from_dict(c.to_dict())`, with the id that it gets.
  unfoldable pub mapping_of : World → String → Conn → MappingConfig fl
  unfolding normalise
  mapping_of os id c = record {
    id = id;
    name = c.name;
    enabled = c.enabled;
    kind = "net";
    serial = record c.serial { port = c.device };
    serial_b = default_serial fl;
    network = c.network;
    options = normalise fl os (scalar c.options.idle_timeout_s) c.options;
    mqtt = default_mqtt fl;
    modbus_poll = default_poll fl;
  }

  -- `_Conn.note`, `_Conn.skip` and `_Conn.drop`
  abbrev pub note : Note → Conn → Conn
  note n c = record c { notes = add_once n c.notes }

  abbrev pub skip : Note → Conn → Conn
  skip why c = note (skipped_for why) (record c { skipped = add_once (skipped_for why) c.skipped })

  abbrev pub drop_option : List ℕ → Conn → Conn
  drop_option option c =
      if is_any_of option c.dropped then c else record c { dropped = c.dropped ++ (option ∷ []) }
