-- ===== src/Pipeline.antt =====
-- The daily pipeline (apps/forecasting/pipeline_orchestrator.py): forecasts, decisions, orders.
pub mod Creator
pub mod Orchestrator
pub mod Consumed
pub mod Counted
pub mod Pending
pub mod Valid
pub mod Safe
pub mod Tests
