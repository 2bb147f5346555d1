-- ===== src/Modbus/Crc.antt =====
-- app/engine/modbus.py: the CRC-16 of a Modbus RTU frame.
pub mod Detect
use ser2net.Common.{ℕ, zero, suc, ◌<◌, bit_and, bit_xor, List, [], ◌∷◌, ◌==◌, if◌then◌else◌}
use ser2net.Common.Bits.{shr}

abbrev pub IsByte : ℕ → Type 0
IsByte b = b < 256

-- `if crc & 1: crc = (crc >> 1) ^ 0xA001 else: crc >>= 1`
unfoldable pub crc_bit : ℕ → ℕ
crc_bit crc = if bit_and crc 1 == 0 then shr crc 1 else bit_xor (shr crc 1) 0xA001

-- `for _ in range(n)`
unfoldable pub crc_bits : ℕ → ℕ → ℕ
crc_bits zero crc = crc
crc_bits (suc n) crc = crc_bits n (crc_bit crc)

unfoldable pub crc_bytes : ℕ → List ℕ → ℕ
crc_bytes crc [] = crc
crc_bytes crc (byte ∷ rest) = crc_bytes (crc_bits 8 (bit_xor crc byte)) rest

unfoldable pub crc16 : List ℕ → ℕ
crc16 bytes = bit_and (crc_bytes 0xFFFF bytes) 0xFFFF
