-- ===== src/Membership.antt =====
-- src/membership: the replicas that are alive, and which of them owns an ExternalPodAutoscaler.
pub mod Manager
pub mod Ownership
