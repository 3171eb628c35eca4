-- ===== src/Autocreate.antt =====
-- Automatic creation of aliases (internal/autocreate/manager.go).
pub mod Plan
pub mod Manager
pub mod Deadlines
pub mod Decisions
pub mod Steps
pub mod Swaps
pub mod Beginnings
pub mod Cooling
pub mod Spacing
pub mod Started
pub mod Moves
pub mod Courses
pub mod Called
pub mod Turns
pub mod Apart
mod Tests
