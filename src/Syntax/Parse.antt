-- ===== src/Syntax/Parse.antt =====
-- packages/core/src/parser/parser.js.
pub mod Stream
pub mod Heads
pub mod Expressions
pub mod Statements
pub mod Source
