-- ===== src/Webhook/Metrics.antt =====
-- src/webhook/metrics: aggregation over pods, the names of external metrics, and the handler.
pub mod Aggregation
pub mod Name
pub mod Handler
