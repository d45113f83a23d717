-- ===== src/Syntax/Lexer.antt =====
-- packages/core/src/lexer/lexer.js.
pub mod Cursor
pub mod Words
pub mod Tokenize
pub mod Left
pub mod Shrink
pub mod Closed
pub mod Fuel
