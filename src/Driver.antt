-- ===== src/Driver.antt =====
-- The kernel driver (driver/).
pub mod Registers
pub mod Scatter
pub mod Device
pub mod Buffer
pub mod Workarounds
pub mod Control
pub mod Fops
pub mod Ioctl
pub mod Interrupt
pub mod Ring
pub mod Locks
pub mod Support
pub mod Devnode
pub mod Cpus
pub mod Load
mod Tests
