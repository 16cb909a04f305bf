-- ===== src/Jobs/Scheduler/Parts.antt =====
-- What the parts of a round of a worker thread take out of the queues.
use portal_framework.Base.{
  ℕ, ◌+◌, ◌%◌, ◌≤◌, ◌<◌, ◌≡◌, refl, ap, false, List, [], length, arith, ltb, leb, ◌==◌, Bool-cases,
  inl, inr,
}
use portal_framework.Base.Counting.{count}
use portal_framework.Jobs.ConcurrentQueue.{ConcurrentQueue}
use portal_framework.Jobs.WorkerQueue
use portal_framework.Jobs.WorkerQueue.{JobPriority, WorkerQueue}
use portal_framework.Jobs.WorkerQueue.Contents.{held, AlwaysEnqueues}
use portal_framework.Jobs.WorkerQueue.Moves.{
  try_pop_bulk-Releases, migrate-Releases, attempt_steal-Releases,
}
use portal_framework.Jobs.WorkerQueue.Order.{try_pop_bulk-le, attempt_steal-le}
use portal_framework.Jobs.Scheduler.{
  ContextId, worker, global, WorkerContext, Scheduler, context_at, set_context, check_migration,
  pop_local, try_steal, try_dequeue_global, cache_size,
}
use portal_framework.Jobs.Scheduler.Contents.{
  cached, context_count, waiting, IsContext, IsScheduler, Exists, IsContext-context_at,
  waiting-set_context, set_context-IsScheduler, num_workers-set_context,
}

module _ (cq : ConcurrentQueue) where
  -- A part of a round took `jobs` out of the queues, and touched no cache.
  pub record Takes (s : Scheduler cq) (id : ContextId) (jobs : List ℕ) (s' : Scheduler cq)
      : Type 0 where
    pub counts : (a : ℕ) → count a jobs + waiting cq a s' ≡ waiting cq a s
    pub valid : IsScheduler cq s'
    pub same_number : s'.num_workers ≡ s.num_workers
    pub same_index : (context_at cq id s').cache_index ≡ (context_at cq id s).cache_index
    pub same_size : cache_size cq id s' ≡ cache_size cq id s
    pub fits : length jobs ≤ cache_size cq id s

  pub Takes-nothing : (s : Scheduler cq) (id : ContextId) → IsScheduler cq s → Takes s id [] s
  Takes-nothing s id v = record {
    counts = λ a. omega arith;
    valid = v;
    same_number = refl;
    same_index = refl;
    same_size = refl;
    fits = omega arith;
  }

  -- A context loses jobs from its queue alone.
  abbrev pub Loses : WorkerContext cq → List ℕ → WorkerContext cq → Type 0
  Loses c jobs c' =
      (c'.job_cache ≡ c.job_cache)
      × (c'.cache_index ≡ c.cache_index)
      × ((a : ℕ) → count a jobs + held cq a c'.queue ≡ held cq a c.queue)

  Loses-count :
      (c c' : WorkerContext cq) (jobs : List ℕ) (a : ℕ)
      → Loses c jobs c'
      → count a jobs + context_count cq a c' ≡ context_count cq a c
  Loses-count c c' jobs a l =
      let same : cached cq c' ≡ cached cq c = cc (l.0, l.1) in
      omega (arith, l.2 a, ap (count a) same)

  Loses-IsContext :
      (c c' : WorkerContext cq) (jobs : List ℕ) → Loses c jobs c' → IsContext cq c → IsContext cq c'
  Loses-IsContext c c' jobs l v = omega (arith, l.1, ap (length {A = ℕ}) l.0)

  -- The context `from` loses jobs that the cache of `id` has room for.
  pub set_context-Takes :
      (id from : ContextId) (s : Scheduler cq) (jobs : List ℕ) (c' : WorkerContext cq)
      → Exists cq from s
      → IsScheduler cq s
      → Loses (context_at cq from s) jobs c'
      → length jobs ≤ cache_size cq id s
      → Takes s id jobs (set_context cq from c' s)
  set_context-Takes id from s jobs c' there v l fits = record {
    counts = λ a. omega (
      arith,
      waiting-set_context cq from c' s a there,
      Loses-count (context_at cq from s) c' jobs a l,
    );
    valid =
        set_context-IsScheduler cq from c' s
          (Loses-IsContext (context_at cq from s) c' jobs l
            (IsContext-context_at cq from s there v))
          v;
    same_number = num_workers-set_context cq from c' s;
    same_index = same_at (λ c. c.cache_index) id from l.1;
    same_size = same_at (λ c. length c.job_cache) id from (ap length l.0);
    fits = fits;
  }
    where
      same_at :
          (f : WorkerContext cq → ℕ) (i j : ContextId)
          → f c' ≡ f (context_at cq j s)
          → f (context_at cq i (set_context cq j c' s)) ≡ f (context_at cq i s)
      same_at f (worker i) (worker j) e = ground arith
      same_at f (worker i) global e = refl
      same_at f global (worker j) e = refl
      same_at f global global e = e

  check_migration-Loses :
      (c : WorkerContext cq) → AlwaysEnqueues cq → Loses c [] (check_migration cq c)
  unfolding check_migration
  check_migration-Loses c enough =
      elim (Bool-cases (leb 128 (c.iterations_since_steal_check + 1))) [
        | inl e ↦ rw e (refl, refl, λ a. (migrate-Releases cq c.queue enough).counts a)
        | inr e ↦ rw e (refl, refl, λ a. omega arith)
      ]

  pub pop_local-Takes :
      (tls : ℕ) (id : ContextId) (s : Scheduler cq)
      → AlwaysEnqueues cq
      → Exists cq id s
      → IsScheduler cq s
      → let (jobs, s') = pop_local cq tls id s in Takes s id jobs s'
  unfolding pop_local
  pop_local-Takes tls id s enough there v =
      let c = check_migration cq (context_at cq id s) in
      let n = length c.job_cache in
      let l = check_migration-Loses (context_at cq id s) enough in
      let jobs = (WorkerQueue.try_pop_bulk cq n c.queue).0 in
      let r = try_pop_bulk-Releases cq n c.queue in
      let le = try_pop_bulk-le cq n c.queue in
      elim (Bool-cases (ltb tls s.num_workers)) [
        | inr e ↦ rw e (Takes-nothing s id v)
        | inl e ↦ rw e (
            set_context-Takes id id s jobs _ there v
              (l.0, l.1, λ a. omega (arith, r.counts a, l.2 a))
              (omega (arith, le, ap (length {A = ℕ}) l.0)))
      ]

  pub try_steal-Takes :
      (tls rng n : ℕ) (id : ContextId) (s : Scheduler cq)
      → IsScheduler cq s
      → n ≤ cache_size cq id s
      → let (jobs, s') = try_steal cq tls rng n s in Takes s id jobs s'
  unfolding try_steal
  try_steal-Takes tls rng n id s v fits =
      let i = rng % s.num_workers in
      let q = (s.contexts i).queue in
      let r = attempt_steal-Releases cq n q in
      elim (Bool-cases (s.num_workers == 0)) [
        | inl e ↦ rw e (Takes-nothing s id v)
        | inr e ↦ elim (Bool-cases (i == tls)) [
          | inl f ↦ rw (e, f) (Takes-nothing s id v)
          | inr f ↦
              rw (e, f)
                (set_context-Takes id (worker i) s _ _ (in_range e) v (refl, refl, λ a. r.counts a)
                  (omega (arith, attempt_steal-le cq n q)))
        ]
      ]
    where
      in_range : (s.num_workers == 0) ≡ false → rng % s.num_workers < s.num_workers
      in_range e = let pos : 0 < s.num_workers = ground arith in omega arith

  pub try_dequeue_global-Takes :
      (n : ℕ) (id : ContextId) (s : Scheduler cq)
      → IsScheduler cq s
      → n ≤ cache_size cq id s
      → let (jobs, s') = try_dequeue_global cq n s in Takes s id jobs s'
  unfolding try_dequeue_global
  try_dequeue_global-Takes n id s v fits =
      let q = s.global_context.queue in
      set_context-Takes id global s _ _ tt v
        (refl, refl, λ a. (try_pop_bulk-Releases cq n q).counts a)
        (omega (arith, try_pop_bulk-le cq n q))
