-- ===== src/Parser/Sound.antt =====
-- The trees that the parser builds (compiler/parser.c), against a grammar.
pub mod Grammar
pub mod Trail
mod Parts
mod Stops
mod Primaries
pub mod Exprs
pub mod Size
mod VarGrammar
mod VarLists
pub mod StmtGrammar
mod Simple
pub mod Stmts
