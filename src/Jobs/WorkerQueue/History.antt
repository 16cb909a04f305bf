-- ===== src/Jobs/WorkerQueue/History.antt =====
-- Histories of calls on the queues of one worker.
use portal_framework.Base.{
  ℕ, ◌+◌, ◌-◌, ◌^◌, ◌<◌, ◌≡◌, refl, Bool, true, false, List, [], ◌∷◌, ◌++◌, length, arith, ltb,
  Bool-cases, inl, inr,
}
use portal_framework.Base.Counting.{count, count-append}
use portal_framework.Jobs.ConcurrentQueue.{ConcurrentQueue, taken_items}
use portal_framework.Jobs.WorkerQueue.{
  JobPriority, low, normal, high, get, WorkerQueue, create, submit_job, submit_job_batch, try_pop,
  try_pop_bulk, zeros, empty_set, migrate_jobs_to_stealable, steal_more, attempt_steal,
}
use portal_framework.Jobs.WorkerQueue.Contents.{
  held, total, set_total, AlwaysEnqueues, Releases-refl,
}
use portal_framework.Jobs.WorkerQueue.Moves.{
  try_pop-Releases, try_pop_bulk-Releases, migrate-Releases, attempt_steal-Releases,
  steal_more-Releases, submit_job-held, submit_job_batch-held, Stolen,
}
use portal_framework.Jobs.WorkerQueue.Counters.{
  Counted, IsCounted, sub-Counted, add-Counted, same-Counted, try_pop-IsCounted,
  try_pop_bulk-IsCounted, migrate-IsCounted,
}

module _ (cq : ConcurrentQueue) where
  open cq use {Queue, items}

  abbrev StolenCounted : Bool × List ℕ × WorkerQueue cq → Type 0
  StolenCounted (stop, jobs, w) =
      Counted cq w.local_count w.local_set × Counted cq w.stealable_count w.stealable_set

  steal_more-Counted :
      (p : JobPriority) (n : ℕ) (r : Bool × List ℕ × WorkerQueue cq)
      → set_total cq r.2.stealable_set < 2 ^ 64
      → StolenCounted r
      → StolenCounted (steal_more cq p n r)
  unfolding steal_more
  steal_more-Counted p n (true, jobs, w) small v = v
  steal_more-Counted p n (false, jobs, w) small v =
      let k = n - length jobs in
      let q = get p w.stealable_set in
      let out = (cq.try_dequeue_bulk k q).0 in
      let law = cq.items-try_dequeue_bulk k q in
      elim (Bool-cases (ltb 0 (get p w.stealable_count))) [
        | inr nothing ↦ rw nothing v
        | inl something ↦ elim (Bool-cases (ltb 0 (length out))) [
          | inl found ↦
              rw (something, found)
                (v.0, sub-Counted cq p w.stealable_count w.stealable_set _ out law small v.1)
          | inr missed ↦
              rw (something, missed)
                (
                  v.0,
                  same-Counted cq p w.stealable_count w.stealable_set _ out law (ground arith) v.1,
                )
        ]
      ]

  attempt_steal-IsCounted :
      (n : ℕ) (w : WorkerQueue cq) → IsCounted cq w → IsCounted cq (attempt_steal cq n w).1
  unfolding attempt_steal
  attempt_steal-IsCounted n w v =
      let start : Bool × List ℕ × WorkerQueue cq = (false, [], w) in
      let h = steal_more cq high n start in
      let m = steal_more cq normal n h in
      let rh : Stolen cq w h = steal_more-Releases cq high n w start (Releases-refl cq w) in
      let rm : Stolen cq w m = steal_more-Releases cq normal n w h rh in
      let ch = steal_more-Counted high n start (omega (arith, v.small)) (v.local, v.stealable) in
      let cm = steal_more-Counted normal n h (omega (arith, v.small, rh.lengths)) ch in
      let cl = steal_more-Counted low n m (omega (arith, v.small, rm.lengths)) cm in
      record {
        local = cl.0;
        stealable = cl.1;
        small = omega (arith, v.small, (attempt_steal-Releases cq n w).lengths);
      }

  submit_job-IsCounted :
      (job : ℕ) (p : JobPriority) (w : WorkerQueue cq)
      → AlwaysEnqueues cq
      → total cq w + 1 < 2 ^ 64
      → IsCounted cq w
      → IsCounted cq (submit_job cq job p w)
  unfolding submit_job
  submit_job-IsCounted job p w enough room v =
      let q = get p w.local_set in
      let law = rw (enough.0 job q) at (cq.items-enqueue job q) in
      record {
        local = add-Counted cq p w.local_count w.local_set _ (job ∷ []) law (omega arith) v.local;
        stealable = v.stealable;
        small = omega (arith, (submit_job-held cq job p w enough).lengths);
      }

  submit_job_batch-IsCounted :
      (jobs : List ℕ) (p : JobPriority) (w : WorkerQueue cq)
      → AlwaysEnqueues cq
      → total cq w + length jobs < 2 ^ 64
      → IsCounted cq w
      → IsCounted cq (submit_job_batch cq jobs p w)
  unfolding submit_job_batch
  submit_job_batch-IsCounted jobs p w enough room v =
      let q = get p w.local_set in
      let law = rw (enough.1 jobs q) at (cq.items-enqueue_bulk jobs q) in
      record {
        local =
            rw (enough.1 jobs q)
              (add-Counted cq p w.local_count w.local_set _ jobs law (omega arith) v.local);
        stealable = v.stealable;
        small = omega (arith, (submit_job_batch-held cq jobs p w enough).lengths);
      }

  create-IsCounted : IsCounted cq (create cq)
  create-IsCounted = record {
    local = empty_Counted;
    stealable = empty_Counted;
    small = simp cq.items-empty (omega arith);
  }
    where
      empty_Counted : Counted cq zeros (empty_set cq)
      empty_Counted low = rw cq.items-empty
      empty_Counted normal = rw cq.items-empty
      empty_Counted high = rw cq.items-empty

  -- One call, with the jobs that it puts in and those that it hands out.
  pub data Step (w : WorkerQueue cq) : List ℕ → List ℕ → WorkerQueue cq → Type 0 where
    submits :
        (job : ℕ) (p : JobPriority)
        → total cq w + 1 < 2 ^ 64
        → Step w (job ∷ []) [] (submit_job cq job p w)
    submits_batch :
        (jobs : List ℕ) (p : JobPriority)
        → total cq w + length jobs < 2 ^ 64
        → Step w jobs [] (submit_job_batch cq jobs p w)
    pops : Step w [] (taken_items (try_pop cq w).0) (try_pop cq w).1
    pops_bulk : (n : ℕ) → Step w [] (try_pop_bulk cq n w).0 (try_pop_bulk cq n w).1
    migrates : Step w [] [] (migrate_jobs_to_stealable cq w)
    is_stolen_from : (n : ℕ) → Step w [] (attempt_steal cq n w).0 (attempt_steal cq n w).1

  -- The same for a history; each list has what came last in front.
  pub data Reach (w : WorkerQueue cq) : List ℕ → List ℕ → WorkerQueue cq → Type 0 where
    here : Reach w [] [] w
    next :
        {given taken given' taken' : List ℕ} {w' w'' : WorkerQueue cq}
        → Reach w given taken w'
        → Step w' given' taken' w''
        → Reach w (given' ++ given) (taken' ++ taken) w''

  Step-IsCounted :
      (w : WorkerQueue cq) {given taken : List ℕ} {w' : WorkerQueue cq}
      → AlwaysEnqueues cq
      → Step w given taken w'
      → IsCounted cq w
      → IsCounted cq w'
  Step-IsCounted w enough (submits job p room) v = submit_job-IsCounted job p w enough room v
  Step-IsCounted w enough (submits_batch jobs p room) v =
      submit_job_batch-IsCounted jobs p w enough room v
  Step-IsCounted w enough pops v = try_pop-IsCounted cq w v
  Step-IsCounted w enough (pops_bulk n) v = try_pop_bulk-IsCounted cq n w v
  Step-IsCounted w enough migrates v = migrate-IsCounted cq w enough v
  Step-IsCounted w enough (is_stolen_from n) v = attempt_steal-IsCounted n w v

  Step-held :
      (w : WorkerQueue cq) {given taken : List ℕ} {w' : WorkerQueue cq} (a : ℕ)
      → AlwaysEnqueues cq
      → Step w given taken w'
      → count a taken + held cq a w' ≡ count a given + held cq a w
  Step-held w a enough (submits job p room) =
      omega (arith, (submit_job-held cq job p w enough).counts a)
  Step-held w a enough (submits_batch jobs p room) =
      omega (arith, (submit_job_batch-held cq jobs p w enough).counts a)
  Step-held w a enough pops = omega (arith, (try_pop-Releases cq w).counts a)
  Step-held w a enough (pops_bulk n) = omega (arith, (try_pop_bulk-Releases cq n w).counts a)
  Step-held w a enough migrates = omega (arith, (migrate-Releases cq w enough).counts a)
  Step-held w a enough (is_stolen_from n) = omega (arith, (attempt_steal-Releases cq n w).counts a)

  Reach-IsCounted :
      (w : WorkerQueue cq) {given taken : List ℕ} {w' : WorkerQueue cq}
      → AlwaysEnqueues cq
      → Reach w given taken w'
      → IsCounted cq w
      → IsCounted cq w'
  Reach-IsCounted w enough here v = v
  Reach-IsCounted w enough (next {w' = u} r st) v =
      Step-IsCounted u enough st (Reach-IsCounted w enough r v)

  Reach-held :
      (w : WorkerQueue cq) {given taken : List ℕ} {w' : WorkerQueue cq} (a : ℕ)
      → AlwaysEnqueues cq
      → Reach w given taken w'
      → count a taken + held cq a w' ≡ count a given + held cq a w
  Reach-held w a enough here = refl
  Reach-held w a enough (next {given = g} {taken = t} {given' = g'} {taken' = t'} {w' = u} r st) =
      omega (
        arith,
        Reach-held w a enough r,
        Step-held u a enough st,
        count-append a g' g,
        count-append a t' t,
      )

  pub held-create : (a : ℕ) → held cq a (create cq) ≡ 0
  held-create a = simp cq.items-empty

  -- After any history of calls on a new worker queue, in which memory for the queues does not run
  -- out and the queues never hold 2 ^ 64 jobs: every job that was submitted has been handed out by
  -- a pop or a steal or is still queued, each as often as it was submitted, and the counters are
  -- the numbers of jobs in the queues, by priority.
  pub Reach-create :
      {given taken : List ℕ} {w : WorkerQueue cq}
      → AlwaysEnqueues cq
      → Reach (create cq) given taken w
      → ((a : ℕ) → count a taken + held cq a w ≡ count a given)
        × Counted cq w.local_count w.local_set
        × Counted cq w.stealable_count w.stealable_set
  Reach-create enough r =
      let v = Reach-IsCounted (create cq) enough r create-IsCounted in
      ((λ a. omega (arith, Reach-held (create cq) a enough r, held-create a)), v.local, v.stealable)
