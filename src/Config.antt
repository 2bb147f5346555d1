-- ===== src/Config.antt =====
-- app/config.py: the values of a configuration, as Python's dataclasses hold them after JSON was
-- read, and what their validation raises. A field that Python only uses as a string or a flag is one.
-- A number is a `Scalar`, since JSON may hold any other there. Python's floats, the `ipaddress`
-- library and the file system are parameters.
pub mod Serial
pub mod Network
pub mod Options
pub mod Mqtt
pub mod Poll
pub mod Mapping
pub mod App
pub mod Tests
use ser2net.Common.{ℕ, Bool, true, false, ◌&&◌, Option, List, leb, ◌==◌}
use ser2net.Common.Int.{ℤ, pos, negsuc}
use Prim.Native.String.{String}

-- One constructor for each `raise ConfigError`, and the TypeError of a comparison.
pub data ConfigError : Type 0 where
  port_required bad_baudrate bad_bytesize bad_parity bad_stopbits bad_flowcontrol : ConfigError
  bad_line_state rs485_conflict : ConfigError
  bad_mode bad_protocol bad_bind_ip reserved_bind_ip bad_port remote_required : ConfigError
  bad_remote_port bad_max_connections bad_queue bad_idle bad_interval bad_count : ConfigError
  bad_connect_timeout rfc2217_udp modbus_mode rfc2217_single tls_udp tls_incomplete : ConfigError
  tls_missing bad_allowed bad_priority : ConfigError
  bad_idle_timeout bad_connection_time bad_trace_size bad_trace_keep : ConfigError
  no_broker no_topic bad_mqtt_port bad_qos bad_format bad_group bad_node no_group : ConfigError
  bad_poll_interval point_unnamed point_repeated bad_unit bad_function bad_address : ConfigError
  bad_dtype wrong_dtype not_writable : ConfigError
  name_required bad_kind same_ports poll_needs_modbus sparkplug_needs_points : ConfigError
  device_clash port_clash : ConfigError
  type_error : ConfigError

-- What the source does with a Python float: `of_nat` reads a literal, `below` is `x < n`, and `parse`
-- is `float(text)`; `as_int` is the value of a float that is a whole number.
pub record Floats : Type 1 where
  pub F : Type 0
  pub of_nat : ℕ → F
  pub parse : List ℕ → Option F
  pub is_finite : F → Bool
  pub as_int : F → Option ℤ
  pub below : F → ℕ → Bool
  pub equals : F → ℕ → Bool
  pub at_least : F → ℕ → Bool
  pub at_most : F → ℕ → Bool
  pub equals_1_5 : F → Bool
  pub at_least_0_1 : F → Bool

-- An address that `ipaddress.ip_address` accepts.
pub record Ip : Type 0 where
  pub version : ℕ
  pub is_loopback : Bool
  pub is_multicast : Bool
  pub is_reserved : Bool
  pub text : String

-- `ipaddress.ip_address` of the code points of a string, whether `ipaddress.ip_network(...,
-- strict=False)` accepts it, and `os.path.isfile`; `is_letter` says which characters outside ASCII
-- `\w` matches, `decimal_digit` which of these are digits for `int`, `is_other_digit` which others are digits for
-- `str.isdigit`, and `service` is
-- `socket.getservbyname`.
pub record World : Type 0 where
  pub ip_address : List ℕ → Option Ip
  pub is_network : List ℕ → Bool
  pub is_file : String → Bool
  pub is_letter : ℕ → Bool
  pub decimal_digit : ℕ → Option ℕ
  pub is_other_digit : ℕ → Bool
  pub service : List ℕ → Option ℕ

module _ (fl : Floats) where
  open fl use {F, equals, at_least, at_most}

  pub data Scalar : Type 0 where
    boolean : Bool → Scalar
    integer : ℤ → Scalar
    real : F → Scalar
    other : Scalar

  -- `isinstance(value, int)`; a bool is an int.
  abbrev pub is_instance_int : Scalar → Bool
  is_instance_int (boolean b) = true
  is_instance_int (integer v) = true
  is_instance_int (real x) = false
  is_instance_int other = false

  abbrev pub is_int : Scalar → Bool
  is_int (boolean b) = false
  is_int (integer v) = true
  is_int (real x) = false
  is_int other = false

  abbrev pub is_number : Scalar → Bool
  is_number (boolean b) = false
  is_number (integer v) = true
  is_number (real x) = true
  is_number other = false

  -- `lo <= value <= hi`, for a value that can be compared.
  abbrev pub within : ℕ → ℕ → Scalar → Bool
  within lo hi (boolean true) = leb lo 1 && leb 1 hi
  within lo hi (boolean false) = leb lo 0 && leb 0 hi
  within lo hi (integer (pos n)) = leb lo n && leb n hi
  within lo hi (integer (negsuc n)) = false
  within lo hi (real x) = at_least x lo && at_most x hi
  within lo hi other = false

  -- `lo <= value`
  abbrev pub at_least_int : ℕ → Scalar → Bool
  at_least_int lo (boolean true) = leb lo 1
  at_least_int lo (boolean false) = leb lo 0
  at_least_int lo (integer (pos n)) = leb lo n
  at_least_int lo (integer (negsuc n)) = false
  at_least_int lo (real x) = at_least x lo
  at_least_int lo other = false

  -- `value == n`
  abbrev pub is_equal : ℕ → Scalar → Bool
  is_equal n (boolean true) = n == 1
  is_equal n (boolean false) = n == 0
  is_equal n (integer (pos m)) = m == n
  is_equal n (integer (negsuc m)) = false
  is_equal n (real x) = equals x n
  is_equal n other = false

  abbrev pub is_comparable : Scalar → Bool
  is_comparable (boolean b) = true
  is_comparable (integer v) = true
  is_comparable (real x) = true
  is_comparable other = false
