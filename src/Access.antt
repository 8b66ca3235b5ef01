-- ===== src/Access.antt =====
-- Users, projects and their members: who may do what.
pub mod Db
pub mod Service
pub mod Members
pub mod Roles
pub mod Permission
pub mod Grants
pub mod Management
pub mod Escalation
mod Examples
