-- ===== src/Telemetry.antt =====
-- The telemetry of a `Pa2Controller` (src/pa2bridge/controller.py): meters and crossover.
pub mod Numbers
pub mod Meters
pub mod Crossover
pub mod Complete
mod Tests
