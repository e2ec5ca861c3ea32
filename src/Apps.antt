-- ===== src/Apps.antt =====
-- src/apps: the programs that put the components together.
pub mod Daemon
