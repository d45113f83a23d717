-- ===== src/Evaluator.antt =====
-- The folding of constants in Lua programs: packages/core/src/evaluator/constant-evaluator.js.
pub mod Syntax
pub mod Fold
pub mod Meaning
pub mod Quiet
pub mod Sound
pub mod Plain
pub mod Whole
pub mod Count
pub mod Examples
