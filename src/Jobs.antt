-- ===== src/Jobs.antt =====
-- core/portal/core/jobs: the job system.
pub mod ConcurrentQueue
pub mod WorkerQueue
pub mod Counter
pub mod Scheduler
pub mod WakeSignal
