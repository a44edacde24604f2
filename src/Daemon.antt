-- ===== src/Daemon.antt =====
-- banipd.c
pub mod Serve
pub mod Start
pub mod Cleanup
pub mod Options
pub mod Block
pub mod Main
pub mod Log
pub mod Life
