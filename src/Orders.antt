-- ===== src/Orders.antt =====
-- Purchase orders: apps/purchasing/repositories.py and apps/purchasing/services.py.
pub mod Repository
pub mod Service
pub mod Active
pub mod Writes
pub mod Drafts
pub mod Operations
pub mod History
pub mod Lifecycle
pub mod Progress
pub mod Open
pub mod Overdue
pub mod Outcomes
pub mod Released
pub mod Tests
