-- ===== src/Lock.antt =====
-- The package lock/.
pub mod ReentrantMutex
