-- ===== src/Updates.antt =====
-- internal/updates/updates.go: whether a newer release of the panel exists.
pub mod Version
pub mod Checker
