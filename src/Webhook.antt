-- ===== src/Webhook.antt =====
-- src/webhook: the external metrics API that the HPA controller reads, and the admission webhooks.
pub mod Metrics
pub mod Admission
pub mod Server
