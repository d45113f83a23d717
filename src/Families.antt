-- ===== src/Families.antt =====
-- packages/core/src/adapters/clustering.js.
pub mod Clusterer
pub mod Grouping
pub mod Examples
