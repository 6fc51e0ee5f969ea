-- ===== src/Bridge.antt =====
-- The MQTT bridge (src/pa2bridge/mqtt_bridge.py).
pub mod State
pub mod Publish
pub mod Session
pub mod Identity
pub mod Messages
pub mod Discovery
pub mod Device
pub mod Commands
pub mod Main
pub mod Progress
pub mod Steps
pub mod Soundness
pub mod Containment
pub mod Admission
pub mod Taking
pub mod Recognition
pub mod Publishing
pub mod Remembering
mod Tests
