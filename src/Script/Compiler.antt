-- ===== src/Script/Compiler.antt =====
-- The compiler from the syntax tree to bytecode, and what is proved of the code it makes.
pub mod State
pub mod Generate
pub mod Meaning
pub mod Frame
pub mod Pool
pub mod Correct
