-- ===== src/Checkpoint.antt =====
-- The package checkpoint/: what is to be written to the store.
pub mod Dirty
