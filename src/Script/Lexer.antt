-- ===== src/Script/Lexer.antt =====
-- script/include/homeworldz/script/lexer.h and script/src/lexer.cpp: the scanner.
pub mod Token
pub mod Scan
pub mod Total
