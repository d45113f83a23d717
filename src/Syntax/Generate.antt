-- ===== src/Syntax/Generate.antt =====
-- packages/core/src/generator/lua-generator.js.
pub mod Pieces
pub mod Write
