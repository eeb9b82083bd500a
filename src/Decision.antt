-- ===== src/Decision.antt =====
-- The decision agent (ai/agents/decision_agent.py): whether stock is to be reordered.
pub mod Tools
pub mod Agent
pub mod Observed
pub mod Justified
pub mod Flagged
pub mod Kept
pub mod Tests
