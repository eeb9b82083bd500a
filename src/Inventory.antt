-- ===== src/Inventory.antt =====
-- InventoryService (apps/inventory/services.py) over its repositories (apps/inventory/repositories.py).
pub mod Stock
pub mod Invoices
pub mod Apply
pub mod Decisions
pub mod Levels
pub mod Adjust
pub mod Receipts
pub mod Tests
