-- ===== src/Script.antt =====
-- The Falcon script engine, script/: bytecode, its virtual machine, and the compiler.
pub mod Bytecode
pub mod Decimal
pub mod Vm
pub mod Snapshot
pub mod Migration
pub mod Lexer
pub mod Ast
pub mod Parser
pub mod Compiler
mod Tests
mod Witnesses
