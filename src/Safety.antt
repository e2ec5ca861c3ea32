-- ===== src/Safety.antt =====
-- The safety component (src/safety, include/safeedge/safety).
pub mod Types
pub mod Machine
pub mod DualChannel
pub mod Crc32
pub mod BlackChannel
