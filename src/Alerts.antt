-- ===== src/Alerts.antt =====
-- Storage alerts: the rules, the state machine that turns samples into events, the recipients of an
-- event and its delivery.
pub mod Rule
pub mod Transition
pub mod Recipients
pub mod Delivery
pub mod Evaluation
mod Examples
