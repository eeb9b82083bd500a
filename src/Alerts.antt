-- ===== src/Alerts.antt =====
-- Escalations of purchase orders, and the tasks that raise them.
pub mod Escalation
pub mod Timeouts
pub mod Duplicates
pub mod Sweep
pub mod Tests
pub mod Mail
pub mod Retries
