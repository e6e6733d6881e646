-- ===== src/Onkir.antt =====
-- internal/onkir: the data types of a compiled schema, and what its decorators say.
pub mod Schema
pub mod Decorators
pub mod Members
pub mod Methods
pub mod Paths
pub mod ByteSize
pub mod Walk
pub mod Names
pub mod Tests
