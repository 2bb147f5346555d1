-- ===== src/Modbus/Tests.antt =====
-- Concrete Modbus frames and values, for the theorems about app/engine/modbus.py.
use ser2net.Common.{◌≡◌, refl, true, some, [], ◌∷◌, arith}
use ser2net.Common.Result.{ok, err}
use ser2net.Common.Int.{pos}
use ser2net.Modbus.Crc.{crc_bit, crc_bits, crc_bytes, crc16}
use ser2net.Modbus.Rtu.{crc_mismatch, rtu_unwrap}
use ser2net.Modbus.Rtu.Corruption.{one_byte_detected}
use ser2net.Modbus.Tcp.{Frame, take_tcp_adu}
use ser2net.Modbus.Pdu.{bool, int}
use ser2net.Modbus.Pdu.Bits.{pack_bits}
use ser2net.Modbus.Pdu.Write.{write_multiple_coils_pdu, write_multiple_registers_pdu}

-- The request for ten holding registers of unit 1, with its CRC.
frame_head :
    rtu_unwrap (1 ∷ 3 ∷ 0 ∷ 0 ∷ 0 ∷ 10 ∷ 0xC5 ∷ 0xCD ∷ []) ≡ ok (1, 3 ∷ 0 ∷ 0 ∷ 0 ∷ 10 ∷ [])
unfolding rtu_unwrap crc16 crc_bytes crc_bits crc_bit
frame_head = refl

one_byte_detected_example :
    rtu_unwrap (1 ∷ 3 ∷ 0 ∷ 1 ∷ 0 ∷ 10 ∷ 0xC5 ∷ 0xCD ∷ []) ≡ err crc_mismatch
one_byte_detected_example =
    one_byte_detected (1 ∷ 3 ∷ 0 ∷ []) (0 ∷ 10 ∷ 0xC5 ∷ 0xCD ∷ []) 0 1 (omega arith) (omega arith)
      (omega arith) (omega arith) (omega arith) frame_head

abbrev small_frame : Frame
small_frame = record { txn = 1; unit = 17; pdu = 3 ∷ [] }

small_taken : take_tcp_adu (0 ∷ 1 ∷ 0 ∷ 0 ∷ 0 ∷ 2 ∷ 17 ∷ 3 ∷ []) ≡ ok (some small_frame, [])
unfolding take_tcp_adu
small_taken = refl

coils_built :
    write_multiple_coils_pdu (int (pos 19)) (bool true ∷ int (pos 0) ∷ bool true ∷ [])
    ≡ ok (15 ∷ 0 ∷ 19 ∷ 0 ∷ 3 ∷ 1 ∷ 5 ∷ [])
unfolding write_multiple_coils_pdu pack_bits
coils_built = refl

registers_built :
    write_multiple_registers_pdu (int (pos 1)) (int (pos 10) ∷ int (pos 258) ∷ [])
    ≡ ok (16 ∷ 0 ∷ 1 ∷ 0 ∷ 2 ∷ 4 ∷ 0 ∷ 10 ∷ 1 ∷ 2 ∷ [])
unfolding write_multiple_registers_pdu
registers_built = refl
