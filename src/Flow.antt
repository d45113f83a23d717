-- ===== src/Flow.antt =====
-- The graph of basic blocks: packages/core/src/cfg/cfg.js, edge.js and basic-block.js.
pub mod Blocks
pub mod Reach
pub mod Fuel
pub mod Closed
pub mod Sweep
pub mod Whole
pub mod Examples
