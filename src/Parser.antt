-- ===== src/Parser.antt =====
-- The parser (compiler/parser.c): a recursive descent over the tokens of the lexer.
pub mod State
pub mod Expr
pub mod Stmt
pub mod Root
mod Runs
mod Tests
mod Sound
