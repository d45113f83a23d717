-- ===== src/Syntax.antt =====
-- packages/core/src: the lexer's tokens, the parser and the generator of Lua programs.
pub mod Tokens
pub mod Tree
pub mod Result
pub mod Lexer
pub mod Parse
pub mod Generate
pub mod RoundTrip
pub mod Examples
