-- ===== src/Onkcompile.antt =====
-- internal/onkcompile: the checks that a schema must pass.
pub mod Errors
pub mod Names
pub mod Paths
pub mod Decls
pub mod Authz
pub mod Checked
pub mod Decorators
pub mod Types
pub mod Bounds
pub mod Values
pub mod Fields
pub mod Enums
pub mod Headers
pub mod Tests
pub mod DeclTests
