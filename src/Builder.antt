-- ===== src/Builder.antt =====
-- datagen/replay/otel_trace_to_replay_graph.py: how the calls of a trace become a replay graph.
pub mod Ancestors
pub mod Building
pub mod Calls
pub mod Causal
pub mod Events
pub mod Order
pub mod Predecessors
pub mod Segments
pub mod Tagging
mod Tests
