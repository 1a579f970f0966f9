-- ===== src/Script/Parser.antt =====
-- script/include/homeworldz/script/parser.h and script/src/parser.cpp: the recursive-descent parser.
pub mod State
pub mod Expression
pub mod Statement
pub mod Total
