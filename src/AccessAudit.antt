-- ===== src/AccessAudit.antt =====
-- internal/accessaudit/store.go: the leased policy of the access audit, and its store.
pub mod Policy
pub mod Store
pub mod Leases
pub mod Records
pub mod Applying
pub mod Reading
pub mod Sized
pub mod Counted
pub mod Written
pub mod Accounts
pub mod Pruned
pub mod History
mod Tests
mod CountTests
