-- ===== src/Forwarding.antt =====
-- internal/forwarding: port forwarding rules, their validation and the service that applies them.
pub mod Types
pub mod Names
pub mod Resolve
pub mod Validate
pub mod Exclusive
pub mod Validated
pub mod Accepted
pub mod Service
pub mod Sync
pub mod Restore
pub mod Applied
pub mod Failing
pub mod Running
pub mod Refreshing
pub mod Usage
pub mod Counted
pub mod Covered
pub mod Listeners
pub mod Extract
pub mod Extracted
mod Sample
mod Tests
mod ServiceTests
mod UsageTests
