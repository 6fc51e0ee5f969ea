-- ===== src/Protocol.antt =====
-- The PA2's text protocol and its client (src/pa2bridge/protocol.py).
pub mod Frame
pub mod Session
pub mod Client
pub mod Triple
pub mod Closing
pub mod Failure
pub mod Paths
pub mod Framing
pub mod Keeps
pub mod Sending
pub mod Connecting
mod Tests
