-- ===== src/Concurrent.antt =====
-- include/safeedge/concurrent: handing values between threads.
pub mod Ring
