-- ===== src/Parser/Runs.antt =====
-- Every call of the parser (compiler/parser.c) returns or exits, by the tokens left to read.
pub mod Ready
mod Shown
pub mod Tokens
pub mod Operands
pub mod Exprs
mod Parts
pub mod Stmts
pub mod Roots
pub mod Reach
