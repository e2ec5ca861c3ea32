-- ===== src/Ipc.antt =====
-- include/safeedge/ipc and src/ipc: handing values between processes.
pub mod Seqlock
pub mod SharedMemory
