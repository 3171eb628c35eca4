-- ===== src/Store/Seen.antt =====
-- internal/store/seen.go
pub mod Types
pub mod Consume
pub mod Tasks
pub mod Once
pub mod Snapshot
pub mod Queued
pub mod Deleting
pub mod Listing
pub mod Accounts
mod Tests
