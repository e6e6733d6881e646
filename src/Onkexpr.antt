-- ===== src/Onkexpr.antt =====
-- internal/onkexpr: the expression language of validation and authorization rules.
pub mod Outcome
pub mod Arith
pub mod Syntax
pub mod Source
pub mod Lexer
pub mod Parser
pub mod Value
pub mod Operators
pub mod Check
pub mod Exec
pub mod Eval
pub mod Json
pub mod Soundness
pub mod Pattern
pub mod Rules
pub mod Authorize
pub mod Samples
mod Examples
