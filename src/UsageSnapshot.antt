-- ===== src/UsageSnapshot.antt =====
-- internal/usagesnapshot: the durable queue of traffic snapshots (store.go).
pub mod Types
pub mod Capture
pub mod Store
pub mod Queue
pub mod Buckets
pub mod Sequence
pub mod Activation
pub mod Capturing
pub mod Invariant
pub mod Acknowledging
pub mod History
pub mod Deltas
pub mod Traffic
pub mod Pulling
pub mod Answers
pub mod Failures
pub mod Keys
pub mod Sample
mod Tests
