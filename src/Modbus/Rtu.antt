-- ===== src/Modbus/Rtu.antt =====
-- app/engine/modbus.py: the RTU envelope, unit + PDU + CRC16 (low byte first).
pub mod RoundTrip
pub mod Corruption
use ser2net.Common.{
  ℕ, ◌-◌, bit_and, bit_or, List, [], ◌∷◌, ◌++◌, ltb, ◌==◌, if◌then◌else◌, length, get_or, take,
  drop,
}
use ser2net.Common.Bits.{shl, shr}
use ser2net.Common.Result.{Result, ok, err}
use ser2net.Modbus.Crc.{crc16}

-- The ValueErrors of `rtu_unwrap`.
pub data RtuError : Type 0 where
  too_short crc_mismatch : RtuError

unfoldable pub rtu_wrap : ℕ → List ℕ → List ℕ
rtu_wrap unit pdu =
    let body = bit_and unit 0xFF ∷ pdu in
    let crc = crc16 body in body ++ (bit_and crc 0xFF ∷ bit_and (shr crc 8) 0xFF ∷ [])

-- `frame[:-2], frame[-2], frame[-1]`: the frame has at least 4 bytes, so the default is not read.
unfoldable pub rtu_unwrap : List ℕ → Result RtuError (ℕ × List ℕ)
rtu_unwrap frame =
    if ltb (length frame) 4
    then err too_short
    else let body = take (length frame - 2) frame in
      let crc_lo = get_or frame (length frame - 2) 0 in
      let crc_hi = get_or frame (length frame - 1) 0 in
      if crc16 body == bit_or crc_lo (shl crc_hi 8)
      then ok (get_or body 0 0, drop 1 body)
      else err crc_mismatch
