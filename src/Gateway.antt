-- ===== src/Gateway.antt =====
-- app/engine/modbus_gateway.py: the Modbus RTU<->TCP gateway.
pub mod Requests
pub mod Transaction
pub mod Points
pub mod Masters
mod Tests
