-- ===== src/Jobs/Scheduler/History.antt =====
-- Histories of a scheduler, its jobs and their counters: rounds of any thread, dispatches, and the
-- switches of the jobs that run.
use portal_framework.Base.{
  ℕ, ◌+◌, ◌^◌, ◌≤◌, ◌<◌, ◌≡◌, ◌≢◌, Option, none, List, [], ◌∷◌, ◌++◌, length, length-append, arith,
  ltb, ltb→lt, Bool-cases, inl, inr,
}
use portal_framework.Base.Counting.{count, count-append, remove, count-remove, length-remove}
use portal_framework.Jobs.ConcurrentQueue.{ConcurrentQueue, taken_items}
use portal_framework.Jobs.WorkerQueue
use portal_framework.Jobs.WorkerQueue.{JobPriority, normal, WorkerQueue}
use portal_framework.Jobs.WorkerQueue.Contents.{AlwaysEnqueues}
use portal_framework.Jobs.WorkerQueue.Moves.{submit_job_batch-held}
use portal_framework.Jobs.Counter.{Promises, dispatch_counter, finalize}
use portal_framework.Jobs.Counter.Number.{IsCounted, dispatch_counter-IsCounted, finalize-IsCounted}
use portal_framework.Jobs.Scheduler.{
  ContextId, WorkerContext, Scheduler, context_at, worker_thread_iteration, submit, get_context,
}
use portal_framework.Jobs.Scheduler.Contents.{
  waiting, IsScheduler, Exists, IsContext-context_at, waiting-set_context, set_context-IsScheduler,
}
use portal_framework.Jobs.Scheduler.Iteration.{worker_thread_iteration-Conserves}

module _ (cq : ConcurrentQueue) where
  -- The jobs that run on some thread, and those that were dispatched and have not ended.
  pub record System : Type 0 where
    pub scheduler : Scheduler cq
    pub promises : Promises
    pub running : List ℕ
    pub pending : List ℕ

  -- A round of a thread `tls` on a context that exists.
  unfoldable pub round : ℕ → ℕ → ContextId → System → System
  round tls rng id s =
      let (_, job, scheduler) = worker_thread_iteration cq tls rng id s.scheduler in
      record s { scheduler = scheduler; running = taken_items job ++ s.running }

  -- `dispatch_jobs(jobs, priority, counter)`
  unfoldable pub dispatch_jobs : ℕ → List ℕ → JobPriority → Option ℕ → System → System
  dispatch_jobs tls jobs priority counter s = record s {
    scheduler = submit cq tls jobs priority s.scheduler;
    promises = dispatch_counter jobs counter s.promises;
    pending = jobs ++ s.pending;
  }

  -- `SuspendJob::await_suspend`: the running job goes to the back of the queue, with normal priority
  -- and no counter given.
  unfoldable pub suspend : ℕ → ℕ → System → System
  suspend tls job s = record s {
    scheduler = submit cq tls (job ∷ []) normal s.scheduler;
    promises = dispatch_counter (job ∷ []) none s.promises;
    running = remove job s.running;
  }

  -- `FinalizeJob::await_suspend`: the running job has ended.
  unfoldable pub finish : ℕ → System → System
  finish job s = record s {
    promises = finalize job s.promises;
    running = remove job s.running;
    pending = remove job s.pending;
  }

  -- New jobs are not pending, and their promises have no counter yet; fewer than 2 ^ 64 jobs are
  -- ever pending.
  pub data Step (s : System) : System → Type 0 where
    rounds : (tls rng : ℕ) (id : ContextId) → Exists cq id s.scheduler → Step s (round tls rng id s)
    dispatches :
        (tls : ℕ) (jobs : List ℕ) (priority : JobPriority) (counter : Option ℕ)
        → ((a : ℕ) → count a jobs + count a s.pending ≤ 1)
        → ((a : ℕ) → count a jobs ≢ 0 → s.promises.counter_of a ≡ none)
        → length jobs + length s.pending < 2 ^ 64
        → Step s (dispatch_jobs tls jobs priority counter s)
    suspends : (tls job : ℕ) → count job s.running ≢ 0 → Step s (suspend tls job s)
    finishes : (job : ℕ) → count job s.running ≢ 0 → Step s (finish job s)

  pub data Reach (s : System) : System → Type 0 where
    here : Reach s s
    next : {t u : System} → Reach s t → Step t u → Reach s u

  -- A pending job is in one place, and the counters count the pending jobs.
  pub record IsSystem (s : System) : Type 0 where
    pub valid : IsScheduler cq s.scheduler
    pub placed : (a : ℕ) → waiting cq a s.scheduler + count a s.running ≡ count a s.pending
    pub distinct : (a : ℕ) → count a s.pending ≤ 1
    pub counted : IsCounted s.promises s.pending
    pub small : length s.pending < 2 ^ 64

  get_context-Exists : (tls : ℕ) (s : Scheduler cq) → Exists cq (get_context cq tls s) s
  unfolding get_context
  get_context-Exists tls s = elim (Bool-cases (ltb tls s.num_workers)) [
    | inl e ↦ rw e (ltb→lt _ _ e)
    | inr e ↦ rw e tt
  ]

  submit-waiting :
      (tls : ℕ) (jobs : List ℕ) (p : JobPriority) (s : Scheduler cq) (a : ℕ)
      → AlwaysEnqueues cq
      → waiting cq a (submit cq tls jobs p s) ≡ waiting cq a s + count a jobs
  unfolding submit
  submit-waiting tls jobs p s a enough =
      let id = get_context cq tls s in
      let c = context_at cq id s in
      let c' : WorkerContext cq = record c {
        queue = WorkerQueue.submit_job_batch cq jobs p c.queue;
      } in
      omega (
        arith,
        waiting-set_context cq id c' s a (get_context-Exists tls s),
        (submit_job_batch-held cq jobs p c.queue enough).counts a,
      )

  submit-IsScheduler :
      (tls : ℕ) (jobs : List ℕ) (p : JobPriority) (s : Scheduler cq)
      → IsScheduler cq s
      → IsScheduler cq (submit cq tls jobs p s)
  unfolding submit
  submit-IsScheduler tls jobs p s v =
      let id = get_context cq tls s in
      set_context-IsScheduler cq id _ s (IsContext-context_at cq id s (get_context-Exists tls s) v)
        v

  Step-IsSystem : {s t : System} → AlwaysEnqueues cq → Step s t → IsSystem s → IsSystem t
  unfolding round dispatch_jobs suspend finish dispatch_counter
  Step-IsSystem {s = s} enough (rounds tls rng id there) v =
      let c = worker_thread_iteration-Conserves cq tls rng id s.scheduler enough there v.valid in
      let job = (worker_thread_iteration cq tls rng id s.scheduler).1 in
      record {
        valid = c.valid;
        placed =
            λ a. omega (arith, c.counts a, v.placed a, count-append a (taken_items job) s.running);
        distinct = v.distinct;
        counted = v.counted;
        small = v.small;
      }
  Step-IsSystem {s = s} enough (dispatches tls jobs p counter distinct fresh small) v = record {
    valid = submit-IsScheduler tls jobs p s.scheduler v.valid;
    placed = λ a. omega (
      arith,
      submit-waiting tls jobs p s.scheduler a enough,
      v.placed a,
      count-append a jobs s.pending,
    );
    distinct = λ a. omega (arith, distinct a, count-append a jobs s.pending);
    counted =
        dispatch_counter-IsCounted jobs s.pending counter s.promises distinct fresh small v.counted;
    small = omega (arith, length-append jobs s.pending);
  }
  Step-IsSystem {s = s} enough (suspends tls job runs) v = record {
    valid = submit-IsScheduler tls (job ∷ []) normal s.scheduler v.valid;
    placed = λ a. ground (
      arith,
      submit-waiting tls (job ∷ []) normal s.scheduler a enough,
      v.placed a,
      count-remove job a s.running runs,
    );
    distinct = v.distinct;
    counted = v.counted;
    small = v.small;
  }
  Step-IsSystem {s = s} enough (finishes job runs) v =
      let pends : count job s.pending ≢ 0 = omega (arith, v.placed job) in
      record {
        valid = v.valid;
        placed = λ a. ground (
          arith,
          v.placed a,
          count-remove job a s.running runs,
          count-remove job a s.pending pends,
        );
        distinct = λ a. ground (arith, v.distinct a, count-remove job a s.pending pends);
        counted = finalize-IsCounted job s.pending s.promises pends v.small v.counted;
        small = omega (arith, v.small, length-remove job s.pending pends);
      }

  pub Reach-IsSystem : {s t : System} → AlwaysEnqueues cq → Reach s t → IsSystem s → IsSystem t
  Reach-IsSystem enough here v = v
  Reach-IsSystem enough (next r st) v = Step-IsSystem enough st (Reach-IsSystem enough r v)
