-- ===== src/Edge.antt =====
-- include/safeedge/edge and src/edge: what the runtime shows to the outside.
pub mod Snapshot
