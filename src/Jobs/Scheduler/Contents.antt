-- ===== src/Jobs/Scheduler/Contents.antt =====
-- Where the jobs of a scheduler are: in the queues and the caches of its contexts.
use portal_framework.Base.{
  ℕ, zero, suc, ◌+◌, ◌≤◌, ◌<◌, ◌≡◌, ◌≢◌, refl, ap, List, [], ◌∷◌, length, take, get_elem?, arith,
}
use portal_framework.Base.Counting.{count}
use portal_framework.Base.Sums.{sum_below, sum_below-change}
use portal_framework.Jobs.ConcurrentQueue.{ConcurrentQueue, taken_items}
use portal_framework.Jobs.WorkerQueue.Contents.{held}
use portal_framework.Jobs.Scheduler.{
  ContextId, worker, global, WorkerContext, Scheduler, context_at, set_context, update, overwrite,
}

module _ (cq : ConcurrentQueue) where
  -- The handles in the cache that are still to be resumed.
  abbrev pub cached : WorkerContext cq → List ℕ
  cached c = take c.cache_index c.job_cache

  abbrev pub context_count : ℕ → WorkerContext cq → ℕ
  context_count a c = held cq a c.queue + count a (cached c)

  -- How often a handle waits somewhere in the scheduler.
  abbrev pub waiting : ℕ → Scheduler cq → ℕ
  waiting a s =
      sum_below s.num_workers (λ i. context_count a (s.contexts i))
      + context_count a s.global_context

  -- The index of a cache is within the cache.
  abbrev pub IsContext : WorkerContext cq → Type 0
  IsContext c = c.cache_index ≤ length c.job_cache

  pub record IsScheduler (s : Scheduler cq) : Type 0 where
    pub workers : (i : ℕ) → i < s.num_workers → IsContext (s.contexts i)
    pub main : IsContext s.global_context

  -- The names of the contexts that there are.
  abbrev pub Exists : ContextId → Scheduler cq → Type 0
  Exists (worker i) s = i < s.num_workers
  Exists global s = Unit {0}

  pub IsContext-context_at :
      (id : ContextId) (s : Scheduler cq)
      → Exists id s
      → IsScheduler s
      → IsContext (context_at cq id s)
  IsContext-context_at (worker i) s lt v = v.workers i lt
  IsContext-context_at global s lt v = v.main

  -- Replacing a context changes what waits by the difference.
  pub waiting-set_context :
      (id : ContextId) (c : WorkerContext cq) (s : Scheduler cq) (a : ℕ)
      → Exists id s
      → waiting a (set_context cq id c s) + context_count a (context_at cq id s)
        ≡ waiting a s + context_count a c
  waiting-set_context global c s a h = omega arith
  waiting-set_context (worker i) c s a h =
      let f = λ (j : ℕ). context_count a (update s.contexts i c j) in
      let g = λ (j : ℕ). context_count a (s.contexts j) in
      let change =
        sum_below-change s.num_workers i f g h
          (λ j ne. ap (context_count a) (update_ne s.contexts j ne)) in
      let self : f i ≡ context_count a c = ap (context_count a) (update_self s.contexts) in
      omega (arith, change, self)
    where
      update_self : (h : ℕ → WorkerContext cq) → update h i c i ≡ c
      update_self h = ground arith

      update_ne : (h : ℕ → WorkerContext cq) (j : ℕ) → j ≢ i → update h i c j ≡ h j
      update_ne h j ne = ground arith

  pub set_context-IsScheduler :
      (id : ContextId) (c : WorkerContext cq) (s : Scheduler cq)
      → IsContext c
      → IsScheduler s
      → IsScheduler (set_context cq id c s)
  set_context-IsScheduler global c s h v = record { workers = v.workers; main = h }
  set_context-IsScheduler (worker i) c s h v = record {
    workers = λ j lt. one_of j (v.workers j lt);
    main = v.main;
  }
    where
      one_of : (j : ℕ) → IsContext (s.contexts j) → IsContext (update s.contexts i c j)
      one_of j w = ground arith

  pub num_workers-set_context :
      (id : ContextId) (c : WorkerContext cq) (s : Scheduler cq)
      → (set_context cq id c s).num_workers ≡ s.num_workers
  num_workers-set_context (worker i) c s = refl
  num_workers-set_context global c s = refl

  pub context_at-set_context :
      (id : ContextId) (c : WorkerContext cq) (s : Scheduler cq)
      → context_at cq id (set_context cq id c s) ≡ c
  context_at-set_context (worker i) c s = ground arith
  context_at-set_context global c s = refl

pub length-overwrite : (xs ys : List ℕ) → length (overwrite xs ys) ≡ length ys
length-overwrite [] ys = refl
length-overwrite (x ∷ xs) [] = refl
length-overwrite (x ∷ xs) (y ∷ ys) = ap suc (length-overwrite xs ys)

-- A cache that is filled holds just the new jobs.
pub take-overwrite :
    (xs ys : List ℕ) → length xs ≤ length ys → take (length xs) (overwrite xs ys) ≡ xs
take-overwrite [] ys h = refl
take-overwrite (x ∷ xs) [] h = absurd (omega arith)
take-overwrite (x ∷ xs) (y ∷ ys) h = ap (λ zs. x ∷ zs) (take-overwrite xs ys (omega arith))

-- The last of the jobs that are left in a cache.
pub count-take-suc :
    (a i : ℕ) (xs : List ℕ)
    → i < length xs
    → count a (take (suc i) xs) ≡ count a (take i xs) + count a (taken_items (get_elem? xs i))
count-take-suc a i [] h = absurd (omega arith)
count-take-suc a zero (x ∷ xs) h = omega arith
count-take-suc a (suc i) (x ∷ xs) h = omega (arith, count-take-suc a i xs (omega arith))
