-- ===== src/Gateway.antt =====
-- The gateway's limits on requests and running jobs: packages/gateway/src/rate-limiter.js.
pub mod Limiter
pub mod Window
pub mod Tracks
pub mod Sliding
pub mod Slots
pub mod Examples
