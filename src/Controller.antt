-- ===== src/Controller.antt =====
-- The controller, src/controller/externalpodautoscaler: the HPA that it writes, and a reconcile.
pub mod Hpa
pub mod Reconcile
pub mod Observer
pub mod Status
pub mod Registration
pub mod Install
