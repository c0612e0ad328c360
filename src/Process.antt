-- ===== src/Process.antt =====
-- Starting other programs: common/process.
pub mod Shell
pub mod Cmdline
pub mod Find
pub mod Env
pub mod Spawn
pub mod Run
pub mod Search
pub mod Plain
pub mod Examples
