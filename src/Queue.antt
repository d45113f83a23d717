-- ===== src/Queue.antt =====
-- packages/queue/src/in-memory-queue.js: the job queue with leases, heartbeats and retries.
-- `Defs` has the state and one function for each method.
pub mod Defs
pub mod Methods
pub mod Settle
pub mod Invariant
pub mod Keeps
pub mod Flow
pub mod History
pub mod Progress
pub mod Run
pub mod Contract
pub mod Service
pub mod Reclaim
pub mod Requests
pub mod Examples
