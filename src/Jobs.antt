-- ===== src/Jobs.antt =====
-- packages/queue/src/types.js and packages/api/src/state-machine.js: the two machines of a job's
-- states. `Legal` is the queue's, `Product` the one that clients see, `Simulation` the map between.
pub mod Legal
pub mod Product
pub mod Simulation
pub mod Examples
