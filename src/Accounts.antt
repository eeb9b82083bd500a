-- ===== src/Accounts.antt =====
-- Users and their permissions (apps/authentication).
pub mod Permissions
pub mod Verification
pub mod Tests
