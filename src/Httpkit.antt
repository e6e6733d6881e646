-- ===== src/Httpkit.antt =====
-- httpkit: what a generated server's handlers use at run time.
pub mod Guard
pub mod Recorder
pub mod ClientIp
pub mod State
pub mod Handlers
pub mod Envelope
pub mod Tests
