-- ===== src/Concurrency.antt =====
-- core/portal/core/concurrency: the locks.
pub mod ReentrantSpinLock
