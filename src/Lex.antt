-- ===== src/Lex.antt =====
-- The lexer (compiler/lex.c, compiler/lex.h).
pub mod Token
pub mod State
pub mod Rules
mod Tests
pub mod Position
pub mod Scan
pub mod Spelling
pub mod Emit
pub mod Words
pub mod Strings
pub mod Correct
pub mod Stream
pub mod Tail
