-- ===== src/Observability.antt =====
-- The pages of web/src/features/observability.
pub mod Flamegraph
pub mod Metrics
mod Tests
