-- ===== src/Daemon.antt =====
-- The daemon tool: tools/ibs_daemon/ibs_daemon.c.
pub mod Rows
pub mod Cores
pub mod Main
mod Tests
