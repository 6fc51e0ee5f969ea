-- ===== src/Controller.antt =====
-- `Pa2Controller` (src/pa2bridge/controller.py), method by method.
pub mod Action
pub mod Values
pub mod Device
pub mod Entries
pub mod Numbering
pub mod Catalog
pub mod Resolve
pub mod Outputs
pub mod Activate
pub mod Success
pub mod Readback
pub mod Gate
pub mod Rollback
pub mod Sequence
pub mod Bulk
pub mod Outcome
pub mod Completion
pub mod Runs
pub mod Footprint
pub mod Ending
mod EndingTests
mod Tests
