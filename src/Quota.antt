-- ===== src/Quota.antt =====
-- Quota adjustments: a new limit is checked, written to a storage device under a lock, and then to the
-- tables, with an audit trail and a notification.
pub mod Request
pub mod Rows
pub mod Lock
pub mod Adjustment
pub mod Entry
mod Examples
