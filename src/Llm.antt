-- ===== src/Llm.antt =====
-- The providers of language models with their circuit breakers (ai/llm/llm_provider_manager.py).
pub mod Health
pub mod Breaker
pub mod Manager
pub mod Failover
pub mod Registry
pub mod Ranking
pub mod Tests
