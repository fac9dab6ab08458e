-- ===== src/Store.antt =====
-- src/store: the sliding windows of samples, the cache of aggregated values, the configuration of
-- each metric, the scrape statistics and the record of warnings.
pub mod Types
pub mod Window
pub mod Ops
pub mod Stats
pub mod Spec
pub mod Cells
pub mod Calls
pub mod WindowCalls
pub mod Refinement
