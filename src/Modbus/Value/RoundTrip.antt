-- ===== src/Modbus/Value/RoundTrip.antt =====
-- app/engine/modbus.py: `decode_value` after `encode_value`, unscaled.
use ser2net.Common.{ℕ, ◌≡◌, Bool, true, false, List, arith}
use ser2net.Common.Int.{ℤ, pos, negsuc, in_range}
use ser2net.Common.Result.{ok}
use ser2net.Modbus.Pdu.Write.{register_bytes}
use ser2net.Modbus.Value.{
  Dtype, uint16, int16, uint32, int32, float32, unknown, Floats, int_range, pack_int, big_endian,
  is_scaled, whole, decode_value, encode_value,
}

-- The integer dtypes.
abbrev pub is_int : Dtype → Bool
is_int uint16 = true
is_int int16 = true
is_int uint32 = true
is_int int32 = true
is_int float32 = false
is_int unknown = false

module _ (fl : Floats) where
  open fl use {F}

  -- An integer in the range of its integer dtype is encoded, and the words decode to it, when no
  -- scale is set.
  pub decode_value-encode_value :
      (v : ℤ) (dtype : Dtype) (scale : F)
      → is_int dtype ≡ true
      → is_scaled fl scale ≡ false
      → in_range (int_range dtype).0 v (int_range dtype).1 ≡ true
      → (regs : List ℕ) × (encode_value fl (whole v) dtype scale ≡ ok regs)
        × (decode_value fl (register_bytes regs) dtype scale ≡ ok (whole v))
  unfolding encode_value decode_value register_bytes big_endian
  decode_value-encode_value (pos n) uint16 scale hi hs hr =
      (pack_int uint16 (pos n), ground arith, ground arith)
  decode_value-encode_value (negsuc n) uint16 scale hi hs hr =
      (pack_int uint16 (negsuc n), ground arith, ground arith)
  decode_value-encode_value (pos n) int16 scale hi hs hr =
      (pack_int int16 (pos n), ground arith, ground arith)
  decode_value-encode_value (negsuc n) int16 scale hi hs hr =
      (pack_int int16 (negsuc n), ground arith, ground arith)
  decode_value-encode_value (pos n) uint32 scale hi hs hr =
      (pack_int uint32 (pos n), ground arith, ground arith)
  decode_value-encode_value (negsuc n) uint32 scale hi hs hr =
      (pack_int uint32 (negsuc n), ground arith, ground arith)
  decode_value-encode_value (pos n) int32 scale hi hs hr =
      (pack_int int32 (pos n), ground arith, ground arith)
  decode_value-encode_value (negsuc n) int32 scale hi hs hr =
      (pack_int int32 (negsuc n), ground arith, ground arith)
  decode_value-encode_value v float32 scale hi hs hr = absurd (cc)
  decode_value-encode_value v unknown scale hi hs hr = absurd (cc)
