-- ===== src/Library.antt =====
-- The user library (lib/ibs.c).
pub mod State
pub mod Enable
pub mod Options
pub mod Sample
pub mod Initialize
pub mod Daemon
pub mod Tests
