-- ===== src/Jobs/Scheduler/Tests.antt =====
-- Runs of a scheduler over list queues, and the theorems at concrete inputs.
use portal_framework.Base.{◌+◌, ◌≤◌, ◌≡◌, ◌≢◌, refl, [], ◌∷◌, some, arith}
use portal_framework.Base.Counting.{count}
use portal_framework.Jobs.ConcurrentQueue.ListQueue.{list_queue}
use portal_framework.Jobs.WorkerQueue
use portal_framework.Jobs.WorkerQueue.{JobPriority, low, normal, high, WorkerQueue, zeros}
use portal_framework.Jobs.WorkerQueue.Counters.{Counted}
use portal_framework.Jobs.WorkerQueue.Contents.{AlwaysEnqueues}
use portal_framework.Jobs.Counter.{dispatch_counter}
use portal_framework.Jobs.Counter.Number.{number}
use portal_framework.Jobs.Scheduler
use portal_framework.Jobs.Scheduler.{
  Scheduler, WorkerContext, create, worker, global, worker_thread_iteration,
}
use portal_framework.Jobs.Scheduler.Contents.{waiting, IsScheduler}
use portal_framework.Jobs.Scheduler.Iteration.{Conserves, worker_thread_iteration-Conserves}
use portal_framework.Jobs.Scheduler.History.{System, Reach, Step, round, dispatch_jobs}
use portal_framework.Jobs.Scheduler.Safety.{start, Reach-placed, Reach-counts, Reach-ended}
use portal_framework.Jobs.Scheduler.Starvation.{IsStranded, rounds, AllNone, rounds-stranded}

enough : AlwaysEnqueues list_queue
enough = ((λ x q. refl), λ xs q. refl)

-- Three jobs are dispatched by worker 0 with counter 3; the worker fills its cache and resumes one.
abbrev dispatched : System list_queue
dispatched = dispatch_jobs list_queue 0 (11 ∷ 12 ∷ 13 ∷ []) normal (some 3) (start list_queue 2 4)

abbrev filled : System list_queue
filled = round list_queue 0 5 (worker 0) dispatched

abbrev resumed : System list_queue
resumed = round list_queue 0 5 (worker 0) filled

resumed-running : resumed.running ≡ 13 ∷ []
unfolding round dispatch_jobs create Scheduler.submit Scheduler.worker_thread_iteration
    Scheduler.pop_local Scheduler.check_migration Scheduler.fill_cache Scheduler.execute_cached
    WorkerQueue.try_pop_bulk WorkerQueue.pop_more WorkerQueue.pop_bulk WorkerQueue.submit_job_batch
    WorkerQueue.migrate_jobs_to_stealable WorkerQueue.move_to_stealable
resumed-running = refl

Reach-filled : Reach list_queue (start list_queue 2 4) filled
unfolding dispatch_jobs create Scheduler.submit
Reach-filled =
    Reach.next
      (Reach.next Reach.here (
        Step.dispatches 0 (11 ∷ 12 ∷ 13 ∷ []) normal (some 3) (λ a. ground arith) (λ a h. refl)
          (omega arith)))
      (Step.rounds 0 5 (worker 0) (omega arith))

filled-4 : filled.promises.counts 4 ≡ 0
unfolding round dispatch_jobs dispatch_counter
filled-4 = refl

Reach-placed_example :
    (waiting list_queue 11 filled.scheduler + count 11 filled.running ≡ count 11 filled.pending)
    × (count 11 filled.pending ≤ 1)
Reach-placed_example = Reach-placed list_queue 2 4 11 enough Reach-filled

Reach-counts_example : filled.promises.counts 3 ≡ number 3 filled.promises.counter_of filled.pending
Reach-counts_example = Reach-counts list_queue 2 4 3 enough Reach-filled

Reach-ended_example : filled.promises.counter_of 11 ≢ some 4
unfolding round dispatch_jobs
Reach-ended_example = Reach-ended list_queue 2 4 4 11 enough Reach-filled filled-4 (omega arith)

new-IsScheduler : IsScheduler list_queue (create list_queue 2 4)
unfolding create
new-IsScheduler = record { workers = λ i lt. omega arith; main = omega arith }

worker_thread_iteration-Conserves_example :
    Conserves list_queue
      (create list_queue 2 4)
      (worker_thread_iteration list_queue 1 8 (worker 1) (create list_queue 2 4))
unfolding create
worker_thread_iteration-Conserves_example =
    worker_thread_iteration-Conserves list_queue 1 8 (worker 1) (create list_queue 2 4) enough
      (omega arith) new-IsScheduler

-- One worker, with a job in its stealable queue alone.
abbrev stranded : Scheduler list_queue
stranded = record {
  num_workers = 1;
  contexts = λ i. context;
  global_context = record context { queue = WorkerQueue.create list_queue };
}
  where
    context : WorkerContext list_queue
    context = record {
      queue = record (WorkerQueue.create list_queue) {
        stealable_set = record { at_low = []; at_normal = 7 ∷ []; at_high = [] };
        stealable_count = record { at_low = 0; at_normal = 1; at_high = 0 };
      };
      job_cache = 0 ∷ 0 ∷ 0 ∷ 0 ∷ [];
      cache_index = 0;
      iterations_since_steal_check = 0;
    }

stranded-IsStranded : IsStranded list_queue stranded
stranded-IsStranded = record {
  one_worker = refl;
  cache_empty = refl;
  local_empty = record {
    counted = record { local = nothing; stealable = one; small = omega arith };
    none_left = refl;
  };
  global_empty = record {
    counted = record { local = nothing; stealable = nothing; small = omega arith };
    none_left = refl;
  };
}
  where
    nothing : Counted list_queue zeros (WorkerQueue.empty_set list_queue)
    nothing low = refl
    nothing normal = refl
    nothing high = refl

    one :
        Counted list_queue
          (stranded.contexts 0).queue.stealable_count
          (stranded.contexts 0).queue.stealable_set
    one low = refl
    one normal = refl
    one high = refl

rounds-stranded_example : AllNone list_queue (rounds list_queue (3 ∷ 8 ∷ []) stranded).0
rounds-stranded_example = (rounds-stranded list_queue (3 ∷ 8 ∷ []) stranded stranded-IsStranded).0
