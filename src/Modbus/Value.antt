-- ===== src/Modbus/Value.antt =====
-- app/engine/modbus.py: typed values in registers, `decode_value` and `encode_value`.
-- Python's floats are the parameter `Floats`; integers are exact.
pub mod RoundTrip
use ser2net.Common.{
  ℕ, ◌+◌, ◌-◌, ◌*◌, ◌/◌, ◌%◌, Bool, not, ◌&&◌, Option, none, some, List, [], ◌∷◌, ltb,
  if◌then◌else◌, length, take,
}
use ser2net.Common.Int.{ℤ, pos, negsuc, in_range}
use ser2net.Common.Result.{Result, ok, err, raise_if, ◌>>=◌, ◌>>◌}

pub data Dtype : Type 0 where
  uint16 int16 uint32 int32 float32 unknown : Dtype

pub data ValueError : Type 0 where
  unknown_dtype not_enough_data not_a_number not_finite bad_scale out_of_range : ValueError

-- The doubles of the language, with the operations used here. `of_int` and `pack32` are none
-- where Python raises OverflowError; `pack32` gives the pattern of `struct.pack(">f", x)`.
pub record Floats : Type 1 where
  pub F : Type 0
  pub is_finite : F → Bool
  pub is_zero : F → Bool
  pub is_one : F → Bool
  pub of_int : ℤ → Option F
  pub times : F → F → F
  pub over : F → F → F
  pub round : F → ℤ
  pub pack32 : F → Option ℕ
  pub unpack32 : ℕ → F

-- `_DTYPE_REGS` and `dtype_registers`.
unfoldable pub dtype_registers : Dtype → Result ValueError ℕ
dtype_registers uint16 = ok 1
dtype_registers int16 = ok 1
dtype_registers uint32 = ok 2
dtype_registers int32 = ok 2
dtype_registers float32 = ok 2
dtype_registers unknown = err unknown_dtype

-- `_INT_RANGE`: the lowest and the highest value, for the integer dtypes.
unfoldable pub int_range : Dtype → ℤ × ℤ
int_range uint16 = (pos 0, pos 0xFFFF)
int_range int16 = (negsuc 0x7FFF, pos 0x7FFF)
int_range uint32 = (pos 0, pos 0xFFFFFFFF)
int_range int32 = (negsuc 0x7FFFFFFF, pos 0x7FFFFFFF)
int_range float32 = (pos 0, pos 0)
int_range unknown = (pos 0, pos 0)

-- The bits of an integer that fits: two's complement for a negative one.
abbrev pub pattern : ℕ → ℤ → ℕ
pattern modulus (pos n) = n
pattern modulus (negsuc n) = modulus - (n + 1)

abbrev pub signed : ℕ → ℕ → ℤ
signed modulus p = if ltb p (modulus / 2) then pos p else negsuc (modulus - p - 1)

-- `struct.pack(">H")`, ">h", ">I", ">i" of a number in range, as 16-bit words.
abbrev pub pack_int : Dtype → ℤ → List ℕ
pack_int uint16 v = pattern 0x10000 v ∷ []
pack_int int16 v = pattern 0x10000 v ∷ []
pack_int uint32 v = pattern 0x100000000 v / 65536 ∷ pattern 0x100000000 v % 65536 ∷ []
pack_int int32 v = pattern 0x100000000 v / 65536 ∷ pattern 0x100000000 v % 65536 ∷ []
pack_int float32 v = []
pack_int unknown v = []

-- `int.from_bytes(chunk, "big")`
unfoldable pub big_endian : ℕ → List ℕ → ℕ
big_endian acc [] = acc
big_endian acc (b ∷ rest) = big_endian (acc * 256 + b) rest

module _ (fl : Floats) where
  open fl use {F, is_finite, is_zero, is_one, of_int, times, over, round, pack32, unpack32}

  -- A Python number, or anything else (bool included: the source rejects it).
  pub data Number : Type 0 where
    whole : ℤ → Number
    real : F → Number
    not_number : Number

  -- `scale and scale != 1.0`
  abbrev pub is_scaled : F → Bool
  is_scaled scale = not (is_zero scale) && not (is_one scale)

  -- `struct.unpack(fmt, chunk)[0]`
  unfoldable pub unpack : Dtype → List ℕ → Number
  unfolding big_endian
  unpack uint16 chunk = whole (pos (big_endian 0 chunk))
  unpack int16 chunk = whole (signed 0x10000 (big_endian 0 chunk))
  unpack uint32 chunk = whole (pos (big_endian 0 chunk))
  unpack int32 chunk = whole (signed 0x100000000 (big_endian 0 chunk))
  unpack float32 chunk = real (unpack32 (big_endian 0 chunk))
  unpack unknown chunk = not_number

  -- `value * scale`
  unfoldable pub scaled : Number → F → Number
  scaled (whole v) scale = elim (of_int v) [ some x ↦ real (times x scale) | none ↦ not_number ]
  scaled (real x) scale = real (times x scale)
  scaled not_number scale = not_number

  unfoldable pub decode_value : List ℕ → Dtype → F → Result ValueError Number
  unfolding dtype_registers unpack scaled
  decode_value bytes dtype scale = do
    regs ← dtype_registers dtype
    let need = regs * 2
    let chunk = take need bytes
    raise_if (ltb (length chunk) need) not_enough_data
    let value = unpack dtype chunk
    ok (if is_scaled scale then scaled value scale else value)

  -- `isinstance(value, float) and not math.isfinite(value)`, behind the check of the type.
  unfoldable pub check_number : Number → Result ValueError (Unit {0})
  check_number (whole v) = ok tt
  check_number (real x) = raise_if (not (is_finite x)) not_finite
  check_number not_number = err not_a_number

  -- `float(value)`
  unfoldable pub to_float : Number → Result ValueError F
  to_float (whole v) = elim (of_int v) [ some x ↦ ok x | none ↦ err out_of_range ]
  to_float (real x) = ok x
  to_float not_number = err not_a_number

  -- The raw value, `value / scale`.
  unfoldable pub raw_value : Number → F → Result ValueError Number
  unfolding to_float
  raw_value value scale = if not (is_scaled scale) then ok value else (do
    raise_if (not (is_finite scale)) bad_scale
    x ← to_float value
    raise_if (not (is_finite (over x scale))) out_of_range
    ok (real (over x scale)))

  -- `raw if isinstance(raw, int) else round(raw)`
  unfoldable pub to_int : Number → ℤ
  to_int (whole v) = v
  to_int (real x) = round x
  to_int not_number = pos 0

  unfoldable pub pack_raw : Number → Dtype → Result ValueError (List ℕ)
  unfolding to_float to_int int_range
  pack_raw raw float32 = do
    x ← to_float raw
    elim (pack32 x) [ some p ↦ ok (p / 65536 ∷ p % 65536 ∷ []) | none ↦ err out_of_range ]
  pack_raw raw dtype =
      if in_range (int_range dtype).0 (to_int raw) (int_range dtype).1
      then ok (pack_int dtype (to_int raw))
      else err out_of_range

  unfoldable pub encode_value : Number → Dtype → F → Result ValueError (List ℕ)
  unfolding dtype_registers check_number raw_value pack_raw
  encode_value value dtype scale = do
    regs ← dtype_registers dtype
    check_number value
    raw ← raw_value value scale
    pack_raw raw dtype
