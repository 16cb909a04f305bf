-- ===== src/Jobs/Scheduler.antt =====
-- core/portal/core/jobs/scheduler.h and scheduler.cpp: the worker contexts, one round of a worker
-- thread, dispatch, and what a job does to its counter when it is suspended or ends.
-- Each function is one step. `tls` is the `tls_worker_id` of the calling thread, and `rng` what the
-- context's generator returns. Statistics (`JobStats`) and the wake signal are left out; what a job
-- does between two switches is the business of the steps of `Scheduler.History`.
pub mod Contents
pub mod Parts
pub mod Iteration
pub mod History
pub mod Safety
pub mod Starvation
mod Tests
use portal_framework.Base.{
  ℕ, suc, ◌+◌, ◌-◌, ◌%◌, ◌^◌, ◌<◌, Bool, true, false, Option, none, some, List, [], ◌∷◌, length,
  ltb, leb, ◌==◌, if◌then◌else◌, get_elem?, replicate,
}
use portal_framework.Jobs.ConcurrentQueue.{ConcurrentQueue}
use portal_framework.Jobs.WorkerQueue
use portal_framework.Jobs.WorkerQueue.{JobPriority, WorkerQueue}

pub data WorkerIterationState : Type 0 where
  executed filled_cache empty_queue : WorkerIterationState

-- `contexts[i]`, or the global context.
pub data ContextId : Type 0 where
  worker : ℕ → ContextId
  global : ContextId

-- `WorkerContext::STEAL_CHECK_INTERVAL`
abbrev pub steal_check_interval : ℕ
steal_check_interval = 128

abbrev pub update {ℓ} : {A : Type ℓ} → (ℕ → A) → ℕ → A → ℕ → A
update f i a j = if i == j then a else f j

-- The front of the buffer is overwritten; nothing is written past its end.
abbrev pub overwrite {ℓ} : {A : Type ℓ} → List A → List A → List A
overwrite [] buffer = buffer
overwrite (x ∷ xs) [] = []
overwrite (x ∷ xs) (y ∷ ys) = x ∷ overwrite xs ys

module _ (cq : ConcurrentQueue) where
  pub record WorkerContext : Type 0 where
    pub queue : WorkerQueue cq
    pub job_cache : List ℕ
    pub cache_index : ℕ
    pub iterations_since_steal_check : ℕ

  -- `std::vector<WorkerContext>`, read only below `num_workers`.
  pub record Scheduler : Type 0 where
    pub num_workers : ℕ
    pub contexts : ℕ → WorkerContext
    pub global_context : WorkerContext

  abbrev pub context_at : ContextId → Scheduler → WorkerContext
  context_at (worker i) s = s.contexts i
  context_at global s = s.global_context

  abbrev pub set_context : ContextId → WorkerContext → Scheduler → Scheduler
  set_context (worker i) c s = record s { contexts = update s.contexts i c }
  set_context global c s = record s { global_context = c }

  -- `Scheduler(num_worker_threads, job_cache_size)`, for a number of threads that is not negative:
  -- new contexts, whose caches have `cache_size` null handles.
  unfoldable pub create : ℕ → ℕ → Scheduler
  create n cache_size =
      let c : WorkerContext = record {
        queue = WorkerQueue.create cq;
        job_cache = replicate cache_size 0;
        cache_index = 0;
        iterations_since_steal_check = 0;
      } in
      record { num_workers = n; contexts = λ i. c; global_context = c }

  -- `get_context()`
  unfoldable pub get_context : ℕ → Scheduler → ContextId
  get_context tls s = if ltb tls s.num_workers then worker tls else global

  -- The jobs that a dequeue has written to the front of the cache of `c`.
  unfoldable pub fill_cache : ContextId → List ℕ → Scheduler → Scheduler
  fill_cache id jobs s =
      let c = context_at id s in
      set_context id
        (record c { job_cache = overwrite jobs c.job_cache; cache_index = length jobs }) s

  -- `try_steal(jobs, max_size)`
  unfoldable pub try_steal : ℕ → ℕ → ℕ → Scheduler → List ℕ × Scheduler
  try_steal tls rng max_size s =
      let victim_id = rng % s.num_workers in
      let victim = s.contexts victim_id in
      let (stolen, queue) = WorkerQueue.attempt_steal cq max_size victim.queue in
      if s.num_workers == 0
      then ([], s)
      else if victim_id == tls
      then ([], s)
      else (stolen, set_context (worker victim_id) (record victim { queue = queue }) s)

  -- `try_dequeue_global(jobs, max_count)`
  unfoldable pub try_dequeue_global : ℕ → Scheduler → List ℕ × Scheduler
  try_dequeue_global max_count s =
      let c = s.global_context in
      let (jobs, queue) = WorkerQueue.try_pop_bulk cq max_count c.queue in
      (jobs, set_context global (record c { queue = queue }) s)

  -- The check of the interval, with the migration.
  unfoldable pub check_migration : WorkerContext → WorkerContext
  check_migration c =
      if leb steal_check_interval (c.iterations_since_steal_check + 1)
      then record c {
        queue = WorkerQueue.migrate_jobs_to_stealable cq c.queue;
        iterations_since_steal_check = 0;
      }
      else record c { iterations_since_steal_check = c.iterations_since_steal_check + 1 }

  -- The part of a round that a worker thread makes on its own queue.
  unfoldable pub pop_local : ℕ → ContextId → Scheduler → List ℕ × Scheduler
  pop_local tls id s =
      let c = check_migration (context_at id s) in
      let (jobs, queue) = WorkerQueue.try_pop_bulk cq (length c.job_cache) c.queue in
      if ltb tls s.num_workers
      then (jobs, set_context id (record c { queue = queue }) s)
      else ([], s)

  -- The state that a round ends with, the job that it resumes, and the scheduler after it.
  abbrev pub Round : Type 0
  Round = WorkerIterationState × Option ℕ × Scheduler

  -- With jobs found the cache is filled and the round ends; else it goes on as given.
  abbrev pub fill_or : ContextId → List ℕ × Scheduler → (Scheduler → Round) → Round
  fill_or id ([], s) rest = rest s
  fill_or id (x ∷ xs, s) rest = (filled_cache, none, fill_cache id (x ∷ xs) s)

  -- `execute_job(context.job_cache[--context.cache_index])`
  unfoldable pub execute_cached : ContextId → Scheduler → Round
  execute_cached id s =
      let c = context_at id s in
      let i = c.cache_index - 1 in
      (executed, get_elem? c.job_cache i, set_context id (record c { cache_index = i }) s)

  abbrev pub cache_size : ContextId → Scheduler → ℕ
  cache_size id s = length (context_at id s).job_cache

  -- `worker_thread_iteration(context)`
  unfoldable pub worker_thread_iteration : ℕ → ℕ → ContextId → Scheduler → Round
  worker_thread_iteration tls rng id s =
      if ltb 0 (context_at id s).cache_index
      then execute_cached id s
      else fill_or id (pop_local tls id s) (λ s1.
        fill_or id (try_steal tls rng (cache_size id s1) s1) (λ s2.
          fill_or id (try_dequeue_global (cache_size id s2) s2) (λ s3. (empty_queue, none, s3))))

  -- `main_thread_do_work()`
  unfoldable pub main_thread_do_work : ℕ → ℕ → Scheduler → Round
  main_thread_do_work tls rng s = worker_thread_iteration tls rng global s

  -- The queue part of `dispatch_jobs`: the jobs go to the queue of the calling thread's context.
  unfoldable pub submit : ℕ → List ℕ → JobPriority → Scheduler → Scheduler
  unfolding get_context
  submit tls jobs priority s =
      let id = get_context tls s in
      let c = context_at id s in
      set_context id (record c { queue = WorkerQueue.submit_job_batch cq jobs priority c.queue }) s
