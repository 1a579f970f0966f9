-- ===== src/Script/Parser/Total.antt =====
-- The parser ends on every list of tokens, with the fuel that it is given, and takes a script whole.
pub mod Uses
pub mod Expressions
pub mod Scripts
pub mod Stream
pub mod Kept
pub mod Whole
