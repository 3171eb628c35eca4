-- ===== src/Syncer.antt =====
-- The worker that marks messages as seen (internal/syncer/seen_worker.go).
pub mod SeenWorker
pub mod Batches
pub mod Rounds
pub mod Listed
pub mod Draining
mod Tests
