-- ===== src/Sparkplug.antt =====
-- app/engine/sparkplug.py: the payload codec of Sparkplug B.
pub mod Wire
pub mod Ints
pub mod Node
mod Tests
