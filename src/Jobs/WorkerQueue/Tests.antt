-- ===== src/Jobs/WorkerQueue/Tests.antt =====
-- Runs of the worker's queues over list queues, and the theorems at concrete inputs.
use portal_framework.Base.{◌+◌, ◌≡◌, refl, [], ◌∷◌, some, arith, false, replicate}
use portal_framework.Base.Counting.{count}
use portal_framework.Jobs.ConcurrentQueue.{ConcurrentQueue}
use portal_framework.Jobs.ConcurrentQueue.ListQueue.{list_queue, SameItems-refl}
use portal_framework.Jobs.WorkerQueue.{
  low, normal, high, WorkerQueue, create, zeros, submit_job_batch, try_pop, try_pop_bulk,
  attempt_steal, move_to_stealable, pop_one, pop_bulk, pop_more, steal_more,
}
use portal_framework.Jobs.WorkerQueue.Contents.{held, Releases}
use portal_framework.Jobs.WorkerQueue.Moves.{move_to_stealable-loses}
use portal_framework.Jobs.WorkerQueue.Counters.{Counted, IsCounted}
use portal_framework.Jobs.WorkerQueue.History.{Reach, Step, Reach-create}
use portal_framework.Jobs.WorkerQueue.Progress.{AllEmpty, try_pop_bulk-nil, attempt_steal-nil}

-- Two jobs of normal priority, one of low, two that can be stolen.
abbrev busy : WorkerQueue list_queue
busy = record {
  local_set = record { at_low = 9 ∷ []; at_normal = 4 ∷ 5 ∷ []; at_high = [] };
  stealable_set = record { at_low = []; at_normal = 7 ∷ []; at_high = 6 ∷ [] };
  local_count = record { at_low = 1; at_normal = 2; at_high = 0 };
  stealable_count = record { at_low = 0; at_normal = 1; at_high = 1 };
}

try_pop-busy : (try_pop list_queue busy).0 ≡ some 4
unfolding try_pop pop_one
try_pop-busy = refl

try_pop_bulk-busy : (try_pop_bulk list_queue 4 busy).0 ≡ 4 ∷ 5 ∷ 9 ∷ []
unfolding try_pop_bulk pop_more pop_bulk
try_pop_bulk-busy = refl

attempt_steal-busy : (attempt_steal list_queue 1 busy).0 ≡ 6 ∷ []
unfolding attempt_steal steal_more
attempt_steal-busy = refl

busy-IsCounted : IsCounted list_queue busy
busy-IsCounted = record { local = local; stealable = stealable; small = omega arith }
  where
    local : Counted list_queue busy.local_count busy.local_set
    local low = refl
    local normal = refl
    local high = refl

    stealable : Counted list_queue busy.stealable_count busy.stealable_set
    stealable low = refl
    stealable normal = refl
    stealable high = refl

try_pop_bulk-empty : AllEmpty list_queue (create list_queue).local_set
unfolding try_pop_bulk pop_more pop_bulk
try_pop_bulk-empty = try_pop_bulk-nil list_queue 4 (create list_queue) (omega arith) refl

-- A worker with nothing to steal.
abbrev closed : WorkerQueue list_queue
closed = record busy { stealable_set = (create list_queue).stealable_set; stealable_count = zeros }

closed-IsCounted : IsCounted list_queue closed
closed-IsCounted = record {
  local = busy-IsCounted.local;
  stealable = none_there;
  small = omega arith;
}
  where
    none_there : Counted list_queue closed.stealable_count closed.stealable_set
    none_there low = refl
    none_there normal = refl
    none_there high = refl

attempt_steal-closed : AllEmpty list_queue closed.stealable_set
unfolding attempt_steal steal_more
attempt_steal-closed = attempt_steal-nil list_queue 4 closed (omega arith) closed-IsCounted refl

abbrev after_batch : WorkerQueue list_queue
after_batch = submit_job_batch list_queue (4 ∷ 5 ∷ []) normal (create list_queue)

Reach-after_pop :
    Reach list_queue (create list_queue) (4 ∷ 5 ∷ []) (4 ∷ []) (try_pop list_queue after_batch).1
unfolding try_pop pop_one submit_job_batch
Reach-after_pop =
    Reach.next (Reach.next Reach.here (Step.submits_batch (4 ∷ 5 ∷ []) normal (omega arith)))
      Step.pops

Reach-create_example :
    count 5 (4 ∷ []) + held list_queue 5 (try_pop list_queue after_batch).1 ≡ count 5 (4 ∷ 5 ∷ [])
Reach-create_example = (Reach-create list_queue ((λ x q. refl), λ xs q. refl) Reach-after_pop).0 5

-- Queues that dequeue as lists do, and for which there is no memory.
abbrev full_queue : ConcurrentQueue
full_queue = record list_queue {
  enqueue = λ x q. (false, q);
  enqueue_bulk = λ xs q. (false, q);
  items-enqueue = λ x q. SameItems-refl q;
  items-enqueue_bulk = λ xs q. SameItems-refl q;
}

-- 65 jobs of high priority.
abbrev crowded : WorkerQueue full_queue
crowded = record {
  local_set = record { at_low = []; at_normal = []; at_high = replicate 65 3 };
  stealable_set = record { at_low = []; at_normal = []; at_high = [] };
  local_count = record { at_low = 0; at_normal = 0; at_high = 65 };
  stealable_count = zeros;
}

move_to_stealable-loses_example :
    Releases full_queue crowded (replicate 32 3) (move_to_stealable full_queue high crowded)
move_to_stealable-loses_example = move_to_stealable-loses full_queue high crowded (omega arith) refl
