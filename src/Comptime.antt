-- ===== src/Comptime.antt =====
-- Compile-time execution: bytecode, its compiler and its machine (compiler/comptime).
pub mod Word
pub mod Code
pub mod Machine
pub mod Compile
mod Tests
pub mod Layout
pub mod Steps
pub mod Instructions
pub mod Expressions
pub mod Operators
pub mod Correct
pub mod Run
pub mod Sample
pub mod Access
