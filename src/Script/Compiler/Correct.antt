-- ===== src/Script/Compiler/Correct.antt =====
-- The code of an expression computes what the expression means.
pub mod Scopes
pub mod Computes
pub mod Operators
pub mod Casts
pub mod Expressions
