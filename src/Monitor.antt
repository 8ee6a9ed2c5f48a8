-- ===== src/Monitor.antt =====
-- The monitor (tools/ibs_monitor).
pub mod Cpu
pub mod Header
pub mod Settings
pub mod Arguments
pub mod Online
pub mod Sampling
pub mod Program
mod Tests
