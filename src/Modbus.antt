-- ===== src/Modbus.antt =====
-- app/engine/modbus.py: framing helpers of the Modbus RTU<->TCP gateway.
-- Bytes are numbers below 256 in a `List ℕ`; the integer arguments that the source masks with
-- `& 0xFF` are taken as naturals, since every caller passes a non-negative one.
pub mod Crc
pub mod Rtu
pub mod Tcp
pub mod Pdu
pub mod Value
mod Tests
