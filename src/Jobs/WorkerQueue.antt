-- ===== src/Jobs/WorkerQueue.antt =====
-- core/portal/core/jobs/worker_queue.h and worker_queue.cpp: the queues of one worker, by priority,
-- with the counters beside them. Each method is one step: what other threads may see between an
-- atomic operation and the next is not modelled. The counters are `std::atomic<size_t>`.
pub mod Contents
pub mod Moves
pub mod Counters
pub mod Order
pub mod History
pub mod Progress
mod Tests
use portal_framework.Base.{
  ℕ, ◌+◌, ◌-◌, ◌%◌, ◌^◌, ◌≤◌, ◌<◌, Bool, true, false, Option, none, some, List, [], ◌∷◌, ◌++◌,
  length, ltb, leb, ◌&&◌, if◌then◌else◌,
}
use portal_framework.Jobs.ConcurrentQueue.{ConcurrentQueue}

pub data JobPriority : Type 0 where
  low normal high : JobPriority

-- `std::array<T, 3>`, indexed by priority.
pub record PerPriority {ℓ} (A : Type ℓ) : Type ℓ where
  pub at_low : A
  pub at_normal : A
  pub at_high : A

module _ {ℓ} {A : Type ℓ} where
  abbrev pub get : JobPriority → PerPriority A → A
  get low a = a.at_low
  get normal a = a.at_normal
  get high a = a.at_high

  abbrev pub put : JobPriority → A → PerPriority A → PerPriority A
  put low v a = record a { at_low = v }
  put normal v a = record a { at_normal = v }
  put high v a = record a { at_high = v }

-- `fetch_add` and `fetch_sub` on a `size_t`.
abbrev pub fetch_add : JobPriority → ℕ → PerPriority ℕ → PerPriority ℕ
fetch_add p n c = put p ((get p c + n) % 2 ^ 64) c

abbrev pub fetch_sub : JobPriority → ℕ → PerPriority ℕ → PerPriority ℕ
fetch_sub p n c = put p ((get p c + 2 ^ 64 - n) % 2 ^ 64) c

abbrev pub zeros : PerPriority ℕ
zeros = record { at_low = 0; at_normal = 0; at_high = 0 }

abbrev pub threshold : ℕ
threshold = 64

abbrev pub move_count : ℕ
move_count = 32

module _ (cq : ConcurrentQueue) where
  abbrev pub QueueSet : Type 0
  QueueSet = PerPriority cq.Queue

  abbrev pub enqueue : JobPriority → ℕ → QueueSet → Bool × QueueSet
  enqueue p x s = let (done, q) = cq.enqueue x (get p s) in (done, put p q s)

  abbrev pub enqueue_bulk : JobPriority → List ℕ → QueueSet → Bool × QueueSet
  enqueue_bulk p xs s = let (done, q) = cq.enqueue_bulk xs (get p s) in (done, put p q s)

  abbrev pub try_dequeue : JobPriority → QueueSet → Option ℕ × QueueSet
  try_dequeue p s = let (out, q) = cq.try_dequeue (get p s) in (out, put p q s)

  abbrev pub try_dequeue_bulk : JobPriority → ℕ → QueueSet → List ℕ × QueueSet
  try_dequeue_bulk p n s = let (out, q) = cq.try_dequeue_bulk n (get p s) in (out, put p q s)

  pub record WorkerQueue : Type 0 where
    pub local_set : QueueSet
    pub stealable_set : QueueSet
    pub local_count : PerPriority ℕ
    pub stealable_count : PerPriority ℕ

  abbrev pub empty_set : QueueSet
  empty_set = record { at_low = cq.empty; at_normal = cq.empty; at_high = cq.empty }

  abbrev pub create : WorkerQueue
  create = record {
    local_set = empty_set;
    stealable_set = empty_set;
    local_count = zeros;
    stealable_count = zeros;
  }

  -- The counter grows whether or not the job went into the queue.
  unfoldable pub submit_job : ℕ → JobPriority → WorkerQueue → WorkerQueue
  submit_job job p w =
      let (done, set) = enqueue p job w.local_set in
      record w { local_set = set; local_count = fetch_add p 1 w.local_count }

  unfoldable pub submit_job_batch : List ℕ → JobPriority → WorkerQueue → WorkerQueue
  submit_job_batch jobs p w =
      let (res, set) = enqueue_bulk p jobs w.local_set in
      let enqueued = if res then length jobs else 0 in
      record w { local_set = set; local_count = fetch_add p enqueued w.local_count }

  -- One of the three tests of `try_pop`.
  unfoldable pub pop_one : JobPriority → WorkerQueue → Option ℕ × WorkerQueue
  pop_one p w =
      let (out, set) = try_dequeue p w.local_set in
      elim out [
        | none ↦ (none, record w { local_set = set })
        | some job ↦
            (some job, record w { local_set = set; local_count = fetch_sub p 1 w.local_count })
      ]

  unfoldable pub try_pop : WorkerQueue → Option ℕ × WorkerQueue
  try_pop w =
      let (h, w1) = pop_one high w in
      elim h [
        | some job ↦ (some job, w1)
        | none ↦
            let (n, w2) = pop_one normal w1 in
            elim n [ some job ↦ (some job, w2) | none ↦ pop_one low w2 ]
      ]

  -- One of the three dequeues of `try_pop_bulk`.
  unfoldable pub pop_bulk : JobPriority → ℕ → WorkerQueue → List ℕ × WorkerQueue
  pop_bulk p n w =
      let (out, set) = try_dequeue_bulk p n w.local_set in
      (out, record w { local_set = set; local_count = fetch_sub p (length out) w.local_count })

  -- `if (total < max_count)`, and the jobs appended to those that are there.
  unfoldable pub pop_more : JobPriority → ℕ → List ℕ × WorkerQueue → List ℕ × WorkerQueue
  pop_more p max_count (jobs, w) =
      if ltb (length jobs) max_count
      then (let (out, w') = pop_bulk p (max_count - length jobs) w in (jobs ++ out, w'))
      else (jobs, w)

  -- What is written to the buffer `jobs`, in order.
  unfoldable pub try_pop_bulk : ℕ → WorkerQueue → List ℕ × WorkerQueue
  try_pop_bulk max_count w =
      pop_more low max_count (pop_more normal max_count (pop_bulk high max_count w))

  -- The lambda of `migrate_jobs_to_stealable`.
  unfoldable pub move_to_stealable : JobPriority → WorkerQueue → WorkerQueue
  move_to_stealable p w =
      if ltb threshold (get p w.local_count)
      then (let (jobs, local) = try_dequeue_bulk p move_count w.local_set in
          let count = length jobs in
          let (res, stealable) = enqueue_bulk p jobs w.stealable_set in
          if ltb 0 count
          then record w {
            local_set = local;
            stealable_set = stealable;
            local_count = fetch_sub p count w.local_count;
            stealable_count =
                if res then fetch_add p count w.stealable_count else w.stealable_count;
          }
          else record w { local_set = local })
      else w

  unfoldable pub migrate_jobs_to_stealable : WorkerQueue → WorkerQueue
  migrate_jobs_to_stealable w =
      move_to_stealable low (move_to_stealable normal (move_to_stealable high w))

  -- One of the three blocks of `attempt_steal`: what it appends to the jobs stolen so far, and
  -- whether the function returns there.
  unfoldable pub steal_more :
      JobPriority → ℕ → Bool × List ℕ × WorkerQueue → Bool × List ℕ × WorkerQueue
  steal_more p max_count (true, jobs, w) = (true, jobs, w)
  steal_more p max_count (false, jobs, w) =
      if ltb 0 (get p w.stealable_count)
      then (let (out, set) = try_dequeue_bulk p (max_count - length jobs) w.stealable_set in
          let stolen = length out in
          if ltb 0 stolen
          then (
            leb max_count stolen,
            jobs ++ out,
            record w {
              stealable_set = set;
              stealable_count = fetch_sub p stolen w.stealable_count;
            },
          )
          else (false, jobs, record w { stealable_set = set }))
      else (false, jobs, w)

  unfoldable pub attempt_steal : ℕ → WorkerQueue → List ℕ × WorkerQueue
  attempt_steal max_count w =
      let (_, jobs, w') =
        steal_more low max_count
          (steal_more normal max_count (steal_more high max_count (false, [], w))) in
      (jobs, w')
