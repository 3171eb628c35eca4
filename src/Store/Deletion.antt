-- ===== src/Store/Deletion.antt =====
-- The queue of mailbox deletions.
pub mod Types
pub mod Normalize
pub mod Snapshot
pub mod Publish
pub mod Queue
pub mod Enqueue
pub mod Frames
pub mod Order
pub mod Held
pub mod Pruning
pub mod Fifo
pub mod Arrivals
pub mod Claims
pub mod Recovery
pub mod Runs
pub mod Requests
pub mod Stored
pub mod Cancelling
pub mod Tests
pub mod Jobs
pub mod Legacy
mod LegacyTests
pub mod Heads
