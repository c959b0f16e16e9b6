-- ===== src/Breaker.antt =====
-- inference_perf/circuit_breaker: triggers, the expression-driven breaker and the registry.
pub mod Trigger
pub mod Circuit
pub mod Tests
