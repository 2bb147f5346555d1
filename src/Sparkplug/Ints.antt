-- ===== src/Sparkplug/Ints.antt =====
-- app/engine/sparkplug.py, the integers of metrics: `_INT_TYPES`, the integer part of
-- `_encode_value`, `_signed` and `_int_from_wire`.
use ser2net.Common.{
  ℕ, ◌-◌, ◌%◌, ◌^◌, ◌≡◌, Bool, true, false, not, ◌&&◌, arith, ltb, leb, ◌==◌, if◌then◌else◌,
}
use ser2net.Common.Bits.{shr}
use ser2net.Common.Int.{ℤ, pos, negsuc, in_range}
use ser2net.Common.Result.{Result, ok, err}

pub data IntType : Type 0 where
  int8 int16 int32 int64 uint8 uint16 uint32 uint64 date_time : IntType

abbrev pub is_signed : IntType → Bool
is_signed int8 = true
is_signed int16 = true
is_signed int32 = true
is_signed int64 = true
is_signed uint8 = false
is_signed uint16 = false
is_signed uint32 = false
is_signed uint64 = false
is_signed date_time = false

abbrev pub bits_of : IntType → ℕ
bits_of int8 = 8
bits_of int16 = 16
bits_of int32 = 32
bits_of int64 = 64
bits_of uint8 = 8
bits_of uint16 = 16
bits_of uint32 = 32
bits_of uint64 = 64
bits_of date_time = 64

-- The width of the value field that is written: `int_value` or `long_value`.
abbrev pub field_bits : IntType → ℕ
field_bits t = if leb (bits_of t) 32 then 32 else 64

abbrev pub lowest : IntType → ℤ
lowest t = if is_signed t then negsuc (2 ^ (bits_of t - 1) - 1) else pos 0

abbrev pub highest : IntType → ℤ
highest t = if is_signed t then pos (2 ^ (bits_of t - 1) - 1) else pos (2 ^ bits_of t - 1)

pub data IntError : Type 0 where
  not_valid does_not_fit : IntError

-- `value & (2**bits - 1)`, of a negative number too.
abbrev pub masked : ℕ → ℤ → ℕ
masked bits (pos n) = n % 2 ^ bits
masked bits (negsuc n) = 2 ^ bits - 1 - n % 2 ^ bits

unfoldable pub encode_int : IntType → ℤ → Result IntError ℕ
encode_int t v =
    if in_range (lowest t) v (highest t) then ok (masked (field_bits t) v) else err not_valid

-- `_signed`
unfoldable pub signed : ℕ → ℕ → ℤ
signed raw bits = if shr raw (bits - 1) == 0 then pos raw else negsuc (2 ^ bits - raw - 1)

unfoldable pub int_from_wire : IntType → ℕ → ℕ → Result IntError ℤ
unfolding signed
int_from_wire t width raw =
    if not (is_signed t)
    then if shr raw (bits_of t) == 0 then ok (pos raw) else err does_not_fit
    else if in_range (lowest t) (signed raw width) (highest t)
    then ok (signed raw width)
    else if ltb (bits_of t) width && shr raw (bits_of t) == 0
    then ok (signed raw (bits_of t))
    else err does_not_fit

-- An integer that is valid for its datatype comes back from the wire as it was.
pub int_from_wire-encode_int :
    (t : IntType) (v : ℤ) (raw : ℕ)
    → encode_int t v ≡ ok raw
    → int_from_wire t (field_bits t) raw ≡ ok v
unfolding int_from_wire encode_int
int_from_wire-encode_int int8 (pos n) raw h = ground arith
int_from_wire-encode_int int8 (negsuc n) raw h = ground arith
int_from_wire-encode_int int16 (pos n) raw h = ground arith
int_from_wire-encode_int int16 (negsuc n) raw h = ground arith
int_from_wire-encode_int int32 (pos n) raw h = ground arith
int_from_wire-encode_int int32 (negsuc n) raw h = ground arith
int_from_wire-encode_int int64 (pos n) raw h = ground arith
int_from_wire-encode_int int64 (negsuc n) raw h = ground arith
int_from_wire-encode_int uint8 (pos n) raw h = ground arith
int_from_wire-encode_int uint8 (negsuc n) raw h = ground arith
int_from_wire-encode_int uint16 (pos n) raw h = ground arith
int_from_wire-encode_int uint16 (negsuc n) raw h = ground arith
int_from_wire-encode_int uint32 (pos n) raw h = ground arith
int_from_wire-encode_int uint32 (negsuc n) raw h = ground arith
int_from_wire-encode_int uint64 (pos n) raw h = ground arith
int_from_wire-encode_int uint64 (negsuc n) raw h = ground arith
int_from_wire-encode_int date_time (pos n) raw h = ground arith
int_from_wire-encode_int date_time (negsuc n) raw h = ground arith

-- An integer that is taken from the wire, in a field of any width, is valid for its datatype.
pub int_from_wire-in_range :
    (t : IntType) (width raw : ℕ) (v : ℤ)
    → int_from_wire t width raw ≡ ok v
    → in_range (lowest t) v (highest t) ≡ true
unfolding int_from_wire
int_from_wire-in_range int8 width raw v h = ground arith
int_from_wire-in_range int16 width raw v h = ground arith
int_from_wire-in_range int32 width raw v h = ground arith
int_from_wire-in_range int64 width raw v h = ground arith
int_from_wire-in_range uint8 width raw v h = ground arith
int_from_wire-in_range uint16 width raw v h = ground arith
int_from_wire-in_range uint32 width raw v h = ground arith
int_from_wire-in_range uint64 width raw v h = ground arith
int_from_wire-in_range date_time width raw v h = ground arith
