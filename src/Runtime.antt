-- ===== src/Runtime.antt =====
-- internal/state/state.go: what the node knows of the running core, its users and their addresses.
pub mod Types
pub mod Inbounds
pub mod Addresses
pub mod Core
pub mod Seen
pub mod History
pub mod Restart
mod Tests
