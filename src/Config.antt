-- ===== src/Config.antt =====
-- The configuration (src/pa2bridge/config.py).
pub mod Parse
pub mod Load
pub mod Slots
mod Tests
