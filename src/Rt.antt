-- ===== src/Rt.antt =====
-- The real-time parts of the program.
pub mod Histogram
pub mod Executor
pub mod ThreadConfig
pub mod Guard
