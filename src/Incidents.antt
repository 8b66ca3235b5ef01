-- ===== src/Incidents.antt =====
-- Incidents: evidence of trouble with an asset, gathered into cases that people work on.
pub mod Db
pub mod Correlation
pub mod Update
mod Examples
pub mod Reconciliation
pub mod Admission
pub mod Notification
pub mod Diagnosis
pub mod Quality
