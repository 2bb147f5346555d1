-- ===== src/Config/Poll.antt =====
-- app/config.py, `ModbusPoint` and `ModbusPoll`.
pub mod Names
use ser2net.Common.{ℕ, Bool, true, false, not, ◌&&◌, ◌||◌, List, [], ◌∷◌}
use ser2net.Common.Result.{Result, ok, ◌>>=◌, ◌>>◌, raise_if}
use ser2net.Common.Texts.{same, is_one_of, is_blank}
use Prim.Native.String.{String}
use ser2net.Config.{
  ConfigError, bad_poll_interval, point_unnamed, point_repeated, bad_unit, bad_function,
  bad_address, bad_dtype, wrong_dtype, not_writable, type_error, Floats, Scalar, within, is_equal,
  is_comparable,
}

abbrev pub modbus_dtypes : List String
modbus_dtypes = "uint16" ∷ "int16" ∷ "uint32" ∷ "int32" ∷ "float32" ∷ "bool" ∷ []

abbrev pub differ : Bool → Bool → Bool
differ true b = not b
differ false b = b

module _ (fl : Floats) where
  open fl use {F, of_nat, at_most}

  pub record ModbusPoint : Type 0 where
    pub name : String
    pub unit : Scalar fl
    pub fn : Scalar fl
    pub address : Scalar fl
    pub dtype : String
    pub scale : Scalar fl
    pub writable : Bool

  pub record ModbusPoll : Type 0 where
    pub interval_s : F
    pub points : List ModbusPoint

  abbrev pub default_poll : ModbusPoll
  default_poll = record { interval_s = of_nat 5; points = [] }

  -- `not (0 <= value <= hi)`, which raises a TypeError for what is no number.
  abbrev pub check_span : ℕ → Scalar fl → ConfigError → Result ConfigError (Unit {0})
  check_span hi v e = do
    raise_if (not (is_comparable fl v)) type_error
    raise_if (not (within fl 0 hi v)) e

  abbrev pub is_bit_function : Scalar fl → Bool
  is_bit_function v = is_equal fl 1 v || is_equal fl 2 v

  unfoldable pub check_point : List String → ModbusPoint → Result ConfigError (Unit {0})
  unfolding is_blank
  check_point seen p = do
    raise_if (is_blank p.name) point_unnamed
    raise_if (is_one_of p.name seen) point_repeated
    check_span 255 p.unit bad_unit
    raise_if (not (is_bit_function p.fn || is_equal fl 3 p.fn || is_equal fl 4 p.fn)) bad_function
    check_span 65535 p.address bad_address
    raise_if (not (is_one_of p.dtype modbus_dtypes)) bad_dtype
    raise_if (differ (is_bit_function p.fn) (same p.dtype "bool")) wrong_dtype
    raise_if (p.writable && not (is_equal fl 1 p.fn || is_equal fl 3 p.fn)) not_writable

  unfoldable pub check_points : List String → List ModbusPoint → Result ConfigError (Unit {0})
  unfolding check_point
  check_points seen [] = ok tt
  check_points seen (p ∷ ps) = do check_point seen p; check_points (p.name ∷ seen) ps

  abbrev pub check_poll : F → List ModbusPoint → Result ConfigError (Unit {0})
  check_poll interval [] = ok tt
  check_poll interval (p ∷ ps) = do
    raise_if (at_most interval 0) bad_poll_interval
    check_points [] (p ∷ ps)

  unfoldable pub validate : ModbusPoll → Result ConfigError (Unit {0})
  unfolding check_points
  validate poll = check_poll poll.interval_s poll.points
