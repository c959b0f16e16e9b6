-- ===== src/Load.antt =====
-- loadgen/load_generator.py: how sessions and requests are given to the workers.
pub mod Failures
pub mod Pool
pub mod Queue
pub mod Teardown
pub mod Workers
mod Tests
