-- ===== src/Audit.antt =====
-- The audit trail: what may be written to it, and who may read it.
pub mod Redaction
pub mod Service
mod Examples
