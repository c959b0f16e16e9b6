-- ===== src/Replay.antt =====
-- inference_perf/datagen/replay: the replay of recorded sessions.
pub mod Graph
pub mod Ids
pub mod Tracker
pub mod Outputs
pub mod Sessions
pub mod Progress
pub mod Lifecycle
pub mod Schedule
pub mod Building
mod Samples
mod Tests
