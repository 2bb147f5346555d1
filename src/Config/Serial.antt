-- ===== src/Config/Serial.antt =====
-- app/config.py, `SerialSettings` and `SerialAdvanced`.
use ser2net.Common.{ℕ, is_nil, Bool, true, false, not, ◌&&◌, ◌||◌, List, [], ◌∷◌}
use ser2net.Common.Result.{Result, ok, ◌>>◌, raise_if}
use ser2net.Common.Int.{pos}
use ser2net.Common.Texts.{same, is_one_of}
use Prim.Native.String.{String}
use ser2net.Config.{
  ConfigError, port_required, bad_baudrate, bad_bytesize, bad_parity, bad_stopbits, bad_flowcontrol,
  bad_line_state, rs485_conflict, Floats, Scalar, boolean, integer, real, other, is_instance_int,
  at_least_int, is_equal,
}

abbrev pub parities : List String
parities = "N" ∷ "E" ∷ "O" ∷ "M" ∷ "S" ∷ []

abbrev pub flowcontrols : List String
flowcontrols = "none" ∷ "rtscts" ∷ "xonxoff" ∷ "dsrdtr" ∷ []

abbrev pub line_states : List String
line_states = "on" ∷ "off" ∷ "keep" ∷ []

module _ (fl : Floats) where
  open fl use {of_nat, equals_1_5}

  pub record SerialAdvanced : Type 0 where
    pub rs485_enabled : Bool
    pub rs485_delay_before_tx_ms : Scalar fl
    pub rs485_delay_after_tx_ms : Scalar fl
    pub rs485_rts_level_for_tx : Bool
    pub hangup_when_done : Bool
    pub nobreak : Bool

  -- `matched` tells whether the dict `match` has entries.
  pub record SerialSettings : Type 0 where
    pub port : List ℕ
    pub matched : Bool
    pub baudrate : Scalar fl
    pub bytesize : Scalar fl
    pub parity : String
    pub stopbits : Scalar fl
    pub flowcontrol : String
    pub rts_on_open : String
    pub dtr_on_open : String
    pub exclusive : Bool
    pub advanced : SerialAdvanced

  abbrev pub default_advanced : SerialAdvanced
  default_advanced = record {
    rs485_enabled = false;
    rs485_delay_before_tx_ms = real (of_nat 0);
    rs485_delay_after_tx_ms = real (of_nat 0);
    rs485_rts_level_for_tx = true;
    hangup_when_done = false;
    nobreak = false;
  }

  abbrev pub default_serial : SerialSettings
  default_serial = record {
    port = [];
    matched = false;
    baudrate = integer (pos 9600);
    bytesize = integer (pos 8);
    parity = "N";
    stopbits = integer (pos 1);
    flowcontrol = "none";
    rts_on_open = "keep";
    dtr_on_open = "keep";
    exclusive = true;
    advanced = default_advanced;
  }

  -- `value in BYTESIZES`
  abbrev pub is_bytesize : Scalar fl → Bool
  is_bytesize v = is_equal fl 5 v || is_equal fl 6 v || is_equal fl 7 v || is_equal fl 8 v

  abbrev pub is_1_5 : Scalar fl → Bool
  is_1_5 (real x) = equals_1_5 x
  is_1_5 (boolean b) = false
  is_1_5 (integer v) = false
  is_1_5 other = false

  -- `value in STOPBITS`
  abbrev pub is_stopbits : Scalar fl → Bool
  is_stopbits v = is_equal fl 1 v || is_1_5 v || is_equal fl 2 v

  unfoldable pub validate : SerialSettings → Result ConfigError (Unit {0})
  validate s = do
    raise_if (is_nil s.port) port_required
    raise_if (not (is_instance_int fl s.baudrate && at_least_int fl 1 s.baudrate)) bad_baudrate
    raise_if (not (is_bytesize s.bytesize)) bad_bytesize
    raise_if (not (is_one_of s.parity parities)) bad_parity
    raise_if (not (is_stopbits s.stopbits)) bad_stopbits
    raise_if (not (is_one_of s.flowcontrol flowcontrols)) bad_flowcontrol
    raise_if (not (is_one_of s.rts_on_open line_states && is_one_of s.dtr_on_open line_states))
        bad_line_state
    raise_if (s.advanced.rs485_enabled && same s.flowcontrol "rtscts") rs485_conflict
    ok tt
