-- ===== src/Onkcompat.antt =====
-- internal/onkcompat: which changes of a schema break its clients.
pub mod Signatures
pub mod Collect
pub mod Compare
pub mod Report
pub mod Kept
pub mod Self
pub mod Tests
