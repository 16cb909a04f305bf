-- ===== src/Jobs/Counter.antt =====
-- The counters of dispatched jobs: `Counter` (core/portal/core/jobs/scheduler.h), what
-- `dispatch_jobs` (scheduler.cpp) does to the counter and the promises of the jobs, and what
-- `FinalizeJob` (job.cpp) does when a job has ended. A counter is named by its address, a job by
-- its handle.
pub mod Number
use portal_framework.Base.{
  ℕ, ◌+◌, ◌-◌, ◌%◌, ◌^◌, Option, none, some, List, [], ◌∷◌, length, ◌==◌, if◌then◌else◌,
}

-- `Counter::count` of each counter, and `JobPromise::counter` of each job.
pub record Promises : Type 0 where
  pub counts : ℕ → ℕ
  pub counter_of : ℕ → Option ℕ

-- The loop of `dispatch_jobs`: `job.set_counter(counter)` for each job.
unfoldable pub set_counters : List ℕ → ℕ → (ℕ → Option ℕ) → ℕ → Option ℕ
set_counters [] k f = f
set_counters (job ∷ jobs) k f = set_counters jobs k (λ j. if job == j then some k else f j)

-- What `dispatch_jobs(jobs, priority, counter)` does before it submits the jobs.
unfoldable pub dispatch_counter : List ℕ → Option ℕ → Promises → Promises
dispatch_counter jobs none s = s
dispatch_counter jobs (some k) s = record {
  counts = λ c. if k == c then (s.counts c + length jobs) % 2 ^ 64 else s.counts c;
  counter_of = set_counters jobs k s.counter_of;
}

-- `FinalizeJob::await_suspend`
unfoldable pub finalize : ℕ → Promises → Promises
finalize job s = elim (s.counter_of job) [
  | none ↦ s
  | some k ↦ record s {
    counts = λ c. if k == c then (s.counts c + 2 ^ 64 - 1) % 2 ^ 64 else s.counts c;
  }
]
