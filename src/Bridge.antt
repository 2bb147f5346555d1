-- ===== src/Bridge.antt =====
-- app/engine/bridge.py: the bridge of one mapping, serial port to network clients.
pub mod Closeon
pub mod Client
pub mod Access
pub mod Admission
pub mod Trace
pub mod Udp
mod Tests
