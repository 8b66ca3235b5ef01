-- ===== src/Confirmation.antt =====
-- The confirmations of quota changes that the assistant proposes:
-- backend/services/ai_quota_confirmation_service.py.
pub mod Traces
pub mod Decision
pub mod Once
mod Examples
