-- ===== src/Domain.antt =====
-- Normalization of an account's settings (internal/domain).
pub mod Texts
pub mod Mailbox
pub mod Imap
pub mod Plain
pub mod Suffix
pub mod Endpoint
mod Tests
