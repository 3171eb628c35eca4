-- ===== src/Store.antt =====
-- The store (internal/store).
pub mod Encoding
pub mod Creation
pub mod Groups
pub mod Quota
pub mod Deletion
pub mod Seen
mod Tests
