-- ===== src/Agent.antt =====
-- PurchasingAgent and its tools (ai/agents).
pub mod Tools
pub mod Purchasing
pub mod Listener
pub mod Gates
pub mod Confirmation
pub mod Gated
pub mod Tests
