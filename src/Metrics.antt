-- ===== src/Metrics.antt =====
-- metrics/session_collector.py: the metrics of sessions, enriched from those of their requests.
pub mod Sessions
pub mod Totals
mod Tests
