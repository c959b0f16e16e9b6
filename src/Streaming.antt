-- ===== src/Streaming.antt =====
-- inference_perf/apis/streaming_parser.py: the parser of server-sent events.
pub mod Channels
pub mod Delivered
pub mod Framing
pub mod Invariants
pub mod Lines
pub mod Machine
pub mod Payload
pub mod Times
mod Tests
