-- ===== src/Jobs/Scheduler/Starvation.antt =====
-- A scheduler with one worker thread: what the worker migrates to its stealable queue it cannot take
-- back.
use portal_framework.Base.{
  ℕ, ◌%◌, ◌≡◌, refl, sym, ap, ◌∙◌, subst, true, false, Option, none, List, [], ◌∷◌, length, arith,
  ltb, ◌==◌,
}
use portal_framework.Jobs.ConcurrentQueue.{ConcurrentQueue}
use portal_framework.Jobs.WorkerQueue.{
  JobPriority, low, normal, high, get, WorkerQueue, pop_bulk, pop_more, try_pop_bulk,
  move_to_stealable, migrate_jobs_to_stealable,
}
use portal_framework.Jobs.WorkerQueue.Contents.{set_total}
use portal_framework.Jobs.WorkerQueue.Moves.{try_pop_bulk-Releases}
use portal_framework.Jobs.WorkerQueue.Counters.{IsCounted, length-get-le, try_pop_bulk-IsCounted}
use portal_framework.Jobs.Scheduler.{
  worker, WorkerContext, Scheduler, empty_queue, check_migration, pop_local, try_steal,
  try_dequeue_global, worker_thread_iteration, cache_size,
}

module _ (cq : ConcurrentQueue) where
  -- Nothing in the local queues.
  pub record IsDrained (w : WorkerQueue cq) : Type 0 where
    pub counted : IsCounted cq w
    pub none_left : set_total cq w.local_set ≡ 0

  pop_more-stealable_set :
      (p : JobPriority) (n : ℕ) (r : List ℕ × WorkerQueue cq)
      → (pop_more cq p n r).1.stealable_set ≡ r.1.stealable_set
  unfolding pop_more pop_bulk
  pop_more-stealable_set p n (jobs, w) = ground arith

  try_pop_bulk-stealable_set :
      (n : ℕ) (w : WorkerQueue cq) → (try_pop_bulk cq n w).1.stealable_set ≡ w.stealable_set
  unfolding try_pop_bulk pop_bulk
  try_pop_bulk-stealable_set n w =
      pop_more-stealable_set low n _ ∙ pop_more-stealable_set normal n _

  nil_of_length : (xs : List ℕ) → length xs ≡ 0 → xs ≡ []
  nil_of_length [] e = refl
  nil_of_length (x ∷ xs) e = absurd (omega arith)

  try_pop_bulk-IsDrained :
      (n : ℕ) (w : WorkerQueue cq)
      → IsDrained w
      → ((try_pop_bulk cq n w).0 ≡ []) × IsDrained (try_pop_bulk cq n w).1
  try_pop_bulk-IsDrained n w v =
      let r = try_pop_bulk-Releases cq n w in
      let same = ap (set_total cq) (try_pop_bulk-stealable_set n w) in
      (
        nil_of_length _ (omega (arith, r.lengths, same, v.none_left)),
        record {
          counted = try_pop_bulk-IsCounted cq n w v.counted;
          none_left = omega (arith, r.lengths, same, v.none_left);
        },
      )

  move_to_stealable-drained :
      (p : JobPriority) (w : WorkerQueue cq) → IsDrained w → move_to_stealable cq p w ≡ w
  unfolding move_to_stealable
  move_to_stealable-drained p w v =
      let few : get p w.local_count ≡ 0 =
        omega (arith, v.counted.local p, length-get-le cq p w.local_set, v.none_left) in
      rw few

  migrate-drained : (w : WorkerQueue cq) → IsDrained w → migrate_jobs_to_stealable cq w ≡ w
  unfolding migrate_jobs_to_stealable
  migrate-drained w v = rw (
    move_to_stealable-drained high w v,
    move_to_stealable-drained normal w v,
    move_to_stealable-drained low w v,
  )

  check_migration-queue :
      (c : WorkerContext cq) → IsDrained c.queue → (check_migration cq c).queue ≡ c.queue
  unfolding check_migration
  check_migration-queue c v = ground (arith, migrate-drained c.queue v)

  check_migration-cache_index :
      (c : WorkerContext cq) → (check_migration cq c).cache_index ≡ c.cache_index
  unfolding check_migration
  check_migration-cache_index c = ground arith

  -- One worker, whose cache and local queues are empty, and a global queue that is empty.
  pub record IsStranded (s : Scheduler cq) : Type 0 where
    pub one_worker : s.num_workers ≡ 1
    pub cache_empty : (s.contexts 0).cache_index ≡ 0
    pub local_empty : IsDrained (s.contexts 0).queue
    pub global_empty : IsDrained s.global_context.queue

  -- A part of a round that leaves all as it was.
  abbrev Leaves : Scheduler cq → List ℕ × Scheduler cq → Type 0
  Leaves s (jobs, s') =
      (jobs ≡ [])
      × IsStranded s'
      × ((s'.contexts 0).queue.stealable_set ≡ (s.contexts 0).queue.stealable_set)

  pop_local-Leaves : (s : Scheduler cq) → IsStranded s → Leaves s (pop_local cq 0 (worker 0) s)
  unfolding pop_local
  pop_local-Leaves s v =
      let c = check_migration cq (s.contexts 0) in
      let n = length c.job_cache in
      let same : c.queue ≡ (s.contexts 0).queue =
        check_migration-queue (s.contexts 0) v.local_empty in
      let d : IsDrained c.queue = subst IsDrained (sym same) v.local_empty in
      let (e, d') = try_pop_bulk-IsDrained n c.queue d in
      let in_range : ltb 0 s.num_workers ≡ true = rw v.one_worker in
      rw in_range (
        e,
        record {
          one_worker = v.one_worker;
          cache_empty = check_migration-cache_index (s.contexts 0) ∙ v.cache_empty;
          local_empty = d';
          global_empty = v.global_empty;
        },
        try_pop_bulk-stealable_set n c.queue ∙ ap (λ w. w.stealable_set) same,
      )

  try_steal-Leaves :
      (rng n : ℕ) (s : Scheduler cq) → IsStranded s → Leaves s (try_steal cq 0 rng n s)
  unfolding try_steal
  try_steal-Leaves rng n s v =
      let one : s.num_workers ≡ 1 = v.one_worker in
      let e0 : (s.num_workers == 0) ≡ false = ground arith in
      let none_other : rng % s.num_workers ≡ 0 = omega arith in
      let e1 : (rng % s.num_workers == 0) ≡ true = ground arith in rw (e0, e1) (refl, v, refl)

  try_dequeue_global-Leaves :
      (n : ℕ) (s : Scheduler cq) → IsStranded s → Leaves s (try_dequeue_global cq n s)
  unfolding try_dequeue_global
  try_dequeue_global-Leaves n s v =
      let (e, d) = try_pop_bulk-IsDrained n s.global_context.queue v.global_empty in
      (
        e,
        record {
          one_worker = v.one_worker;
          cache_empty = v.cache_empty;
          local_empty = v.local_empty;
          global_empty = d;
        },
        refl,
      )

  -- A round of the worker in such a state finds nothing and leaves such a state.
  round-IsStranded :
      (rng : ℕ) (s : Scheduler cq)
      → IsStranded s
      → let (state, job, s') = worker_thread_iteration cq 0 rng (worker 0) s in
        (state ≡ empty_queue)
        × (job ≡ none)
        × IsStranded s'
        × ((s'.contexts 0).queue.stealable_set ≡ (s.contexts 0).queue.stealable_set)
  unfolding worker_thread_iteration
  round-IsStranded rng s v =
      let idle : ltb 0 (s.contexts 0).cache_index ≡ false = ground (arith, v.cache_empty) in
      let (e1, v1, same1) = pop_local-Leaves s v in
      let s1 = (pop_local cq 0 (worker 0) s).1 in
      let (e2, v2, same2) = try_steal-Leaves rng (cache_size cq (worker 0) s1) s1 v1 in
      let s2 = (try_steal cq 0 rng (cache_size cq (worker 0) s1) s1).1 in
      let (e3, v3, same3) = try_dequeue_global-Leaves (cache_size cq (worker 0) s2) s2 v2 in
      rw (idle, e1, e2, e3) (refl, refl, v3, same3 ∙ same2 ∙ same1)

  -- Rounds of the worker thread, with what the generator returns in each: the jobs that they resume,
  -- and the scheduler after them.
  unfoldable pub rounds : List ℕ → Scheduler cq → List (Option ℕ) × Scheduler cq
  rounds [] s = ([], s)
  rounds (rng ∷ rngs) s =
      let (_, job, s1) = worker_thread_iteration cq 0 rng (worker 0) s in
      let (jobs, s2) = rounds rngs s1 in (job ∷ jobs, s2)

  abbrev pub AllNone : List (Option ℕ) → Type 0
  AllNone [] = Unit {0}
  AllNone (j ∷ js) = (j ≡ none) × AllNone js

  -- In a scheduler with one worker thread whose cache and local queues are empty, and with an empty
  -- global queue, the worker resumes no job in any number of rounds, whatever its generator returns,
  -- and its stealable queues keep what is in them.
  pub rounds-stranded :
      (rngs : List ℕ) (s : Scheduler cq)
      → IsStranded s
      → let (jobs, s') = rounds rngs s in
        AllNone jobs × ((s'.contexts 0).queue.stealable_set ≡ (s.contexts 0).queue.stealable_set)
  unfolding rounds
  rounds-stranded [] s v = (tt, refl)
  rounds-stranded (rng ∷ rngs) s v =
      let (_, e, v1, same) = round-IsStranded rng s v in
      let (es, same') = rounds-stranded rngs _ v1 in ((e, es), same' ∙ same)
