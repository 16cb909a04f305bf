-- ===== src/Jobs/WorkerQueue/Moves.antt =====
-- No method of the worker's queues loses a job or doubles one.
use portal_framework.Base.{
  ℕ, ◌-◌, ◌<◌, ◌≡◌, Bool, true, false, List, [], ◌∷◌, length, length-append, arith, ltb, Bool-cases,
  inl, inr,
}
use portal_framework.Base.Counting.{count-append, count-le-length}
use portal_framework.Jobs.ConcurrentQueue.{ConcurrentQueue, taken_items}
use portal_framework.Jobs.WorkerQueue.{
  JobPriority, low, normal, high, get, WorkerQueue, submit_job, submit_job_batch, pop_one, try_pop,
  pop_bulk, pop_more, try_pop_bulk, move_to_stealable, migrate_jobs_to_stealable, steal_more,
  attempt_steal, move_count,
}
use portal_framework.Jobs.WorkerQueue.Contents.{
  put_less, put_more, AlwaysEnqueues, Releases, Releases-refl, Releases-trans,
}

module _ (cq : ConcurrentQueue) where
  open cq use {Queue, items}

  pub pop_bulk-Releases :
      (p : JobPriority) (n : ℕ) (w : WorkerQueue cq)
      → let (out, w') = pop_bulk cq p n w in Releases cq w out w'
  unfolding pop_bulk
  pop_bulk-Releases p n w =
      let (c, l) =
        put_less cq p w.local_set _ _ (cq.items-try_dequeue_bulk n (get p w.local_set)) in
      record { counts = λ a. omega (arith, c a); lengths = omega (arith, l) }

  pub pop_more-Releases :
      (p : JobPriority) (n : ℕ) (w : WorkerQueue cq) (r : List ℕ × WorkerQueue cq)
      → Releases cq w r.0 r.1
      → let (out, w') = pop_more cq p n r in Releases cq w out w'
  unfolding pop_more
  pop_more-Releases p n w (jobs, w1) h = elim (Bool-cases (ltb (length jobs) n)) [
    | inl e ↦ rw e (Releases-trans cq h (pop_bulk-Releases p (n - length jobs) w1))
    | inr e ↦ rw e h
  ]

  -- `try_pop_bulk` takes the jobs that it returns out of the queues, and nothing else changes: for
  -- every handle, its occurrences in the result and in the queues afterwards are those in the queues
  -- before.
  pub try_pop_bulk-Releases :
      (n : ℕ) (w : WorkerQueue cq) → let (out, w') = try_pop_bulk cq n w in Releases cq w out w'
  unfolding try_pop_bulk
  try_pop_bulk-Releases n w =
      pop_more-Releases low n w _ (pop_more-Releases normal n w _ (pop_bulk-Releases high n w))

  pub pop_one-Releases :
      (p : JobPriority) (w : WorkerQueue cq)
      → let (out, w') = pop_one cq p w in Releases cq w (taken_items out) w'
  unfolding pop_one
  pop_one-Releases p w =
      let q = get p w.local_set in
      let (c, l) = put_less cq p w.local_set _ _ (cq.items-try_dequeue q) in
      record { counts = λ a. ground (arith, c a); lengths = ground (arith, l) }

  -- `try_pop` takes the job that it returns, if any, out of the queues, and nothing else changes.
  pub try_pop-Releases :
      (w : WorkerQueue cq) → let (out, w') = try_pop cq w in Releases cq w (taken_items out) w'
  unfolding try_pop
  try_pop-Releases w =
      let h = pop_one cq high w in
      let n = pop_one cq normal h.1 in
      let l = pop_one cq low n.1 in
      let rh = pop_one-Releases high w in
      let rn = pop_one-Releases normal h.1 in
      let rl = pop_one-Releases low n.1 in
      record {
        counts = λ a. ground (arith, rh.counts a, rn.counts a, rl.counts a);
        lengths = ground (arith, rh.lengths, rn.lengths, rl.lengths);
      }

  pub move_to_stealable-Releases :
      (p : JobPriority) (w : WorkerQueue cq)
      → AlwaysEnqueues cq
      → Releases cq w [] (move_to_stealable cq p w)
  unfolding move_to_stealable
  move_to_stealable-Releases p w enough =
      let q = get p w.local_set in
      let jobs = (cq.try_dequeue_bulk move_count q).0 in
      let (c, l) = put_less cq p w.local_set _ _ (cq.items-try_dequeue_bulk move_count q) in
      let s = get p w.stealable_set in
      let (c', l') =
        put_more cq p w.stealable_set _ jobs
          (rw (enough.1 jobs s) at (cq.items-enqueue_bulk jobs s)) in
      record {
        counts = λ a. ground (arith, c a, c' a, count-le-length a jobs);
        lengths = ground (arith, l, l');
      }

  -- `migrate_jobs_to_stealable` only moves jobs between the queues of the worker, as long as memory
  -- for the queues does not run out.
  pub migrate-Releases :
      (w : WorkerQueue cq) → AlwaysEnqueues cq → Releases cq w [] (migrate_jobs_to_stealable cq w)
  unfolding migrate_jobs_to_stealable
  migrate-Releases w enough =
      Releases-trans cq
        (Releases-trans cq (move_to_stealable-Releases high w enough)
          (move_to_stealable-Releases normal _ enough))
        (move_to_stealable-Releases low _ enough)

  -- What the blocks of `attempt_steal` have stolen so far has left the queues.
  abbrev pub Stolen : WorkerQueue cq → Bool × List ℕ × WorkerQueue cq → Type 0
  Stolen w (stop, jobs, w') = Releases cq w jobs w'

  pub steal_more-Releases :
      (p : JobPriority) (n : ℕ) (w : WorkerQueue cq) (r : Bool × List ℕ × WorkerQueue cq)
      → Stolen w r
      → Stolen w (steal_more cq p n r)
  unfolding steal_more
  steal_more-Releases p n w (true, jobs, w1) h = h
  steal_more-Releases p n w (false, jobs, w1) h =
      let q = get p w1.stealable_set in
      let out = (cq.try_dequeue_bulk (n - length jobs) q).0 in
      let (c, l) =
        put_less cq p w1.stealable_set _ _ (cq.items-try_dequeue_bulk (n - length jobs) q) in
      record {
        counts =
            λ a. ground (arith, c a, h.counts a, count-append a jobs out, count-le-length a out);
        lengths = ground (arith, l, h.lengths, length-append jobs out);
      }

  -- `attempt_steal` takes the jobs that it returns out of the queues of the victim, and nothing else
  -- changes.
  pub attempt_steal-Releases :
      (n : ℕ) (w : WorkerQueue cq) → let (out, w') = attempt_steal cq n w in Releases cq w out w'
  unfolding attempt_steal
  attempt_steal-Releases n w = steal_more-Releases low n w _ (
      steal_more-Releases normal n w _
        (steal_more-Releases high n w (false, [], w) (Releases-refl cq w)))

  -- Without memory the jobs that `migrate_jobs_to_stealable` has taken out of the local queue are
  -- dropped: more than 64 jobs are counted there, the bulk enqueue of those it has dequeued fails,
  -- and exactly these are then in no queue of the worker.
  pub move_to_stealable-loses :
      (p : JobPriority) (w : WorkerQueue cq)
      → let jobs = (cq.try_dequeue_bulk move_count (get p w.local_set)).0 in
        64 < get p w.local_count
        → (cq.enqueue_bulk jobs (get p w.stealable_set)).0 ≡ false
        → Releases cq w jobs (move_to_stealable cq p w)
  unfolding move_to_stealable
  move_to_stealable-loses p w many failed =
      let q = get p w.local_set in
      let jobs = (cq.try_dequeue_bulk move_count q).0 in
      let (c, l) = put_less cq p w.local_set _ _ (cq.items-try_dequeue_bulk move_count q) in
      let s = get p w.stealable_set in
      let (c', l') =
        put_more cq p w.stealable_set _ [] (rw failed at (cq.items-enqueue_bulk jobs s)) in
      record {
        counts = λ a. ground (arith, c a, c' a, count-le-length a jobs);
        lengths = ground (arith, l, l');
      }

  -- `submit_job_batch` puts exactly its jobs into the queues, as long as memory does not run out.
  pub submit_job_batch-held :
      (jobs : List ℕ) (p : JobPriority) (w : WorkerQueue cq)
      → AlwaysEnqueues cq
      → Releases cq (submit_job_batch cq jobs p w) jobs w
  unfolding submit_job_batch
  submit_job_batch-held jobs p w enough =
      let s = get p w.local_set in
      let (c, l) =
        put_more cq p w.local_set _ jobs (rw (enough.1 jobs s) at (cq.items-enqueue_bulk jobs s)) in
      record { counts = λ a. omega (arith, c a); lengths = omega (arith, l) }

  pub submit_job-held :
      (job : ℕ) (p : JobPriority) (w : WorkerQueue cq)
      → AlwaysEnqueues cq
      → Releases cq (submit_job cq job p w) (job ∷ []) w
  unfolding submit_job
  submit_job-held job p w enough =
      let s = get p w.local_set in
      let (c, l) =
        put_more cq p w.local_set _ (job ∷ []) (rw (enough.0 job s) at (cq.items-enqueue job s)) in
      record { counts = λ a. omega (arith, c a); lengths = omega (arith, l) }
