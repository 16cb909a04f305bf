-- ===== src/Jobs/Scheduler/Iteration.antt =====
-- A round of a worker thread neither loses a job nor resumes one twice, and keeps its cache in
-- order.
use portal_framework.Base.{
  ℕ, suc, ◌+◌, ◌-◌, ◌≤◌, ◌<◌, ◌≡◌, refl, ap, ◌∙◌, none, List, [], ◌∷◌, length, take, arith, ltb,
  ltb→lt, Bool-cases, inl, inr,
}
use portal_framework.Base.Counting.{count}
use portal_framework.Jobs.ConcurrentQueue.{ConcurrentQueue, taken_items}
use portal_framework.Jobs.WorkerQueue.Contents.{AlwaysEnqueues}
use portal_framework.Jobs.Scheduler.{
  ContextId, worker, global, WorkerContext, Scheduler, context_at, overwrite, fill_cache, pop_local,
  try_steal, try_dequeue_global, fill_or, execute_cached, cache_size, worker_thread_iteration,
  Round, filled_cache, empty_queue,
}
use portal_framework.Jobs.Scheduler.Parts.{
  Takes, pop_local-Takes, try_steal-Takes, try_dequeue_global-Takes,
}
use portal_framework.Jobs.Scheduler.Contents.{
  waiting, IsScheduler, Exists, IsContext-context_at, waiting-set_context, set_context-IsScheduler,
  num_workers-set_context, length-overwrite, take-overwrite, count-take-suc,
}

module _ (cq : ConcurrentQueue) where
  -- The jobs that wait after a round, and the one that it resumes, are those that waited before.
  pub record Conserves (s : Scheduler cq) (r : Round cq) : Type 0 where
    pub counts : (a : ℕ) → count a (taken_items r.1) + waiting cq a r.2 ≡ waiting cq a s
    pub valid : IsScheduler cq r.2
    pub same_number : r.2.num_workers ≡ s.num_workers

  Takes-Conserves :
      (s s' : Scheduler cq) (id : ContextId) (r : Round cq)
      → Takes cq s id [] s'
      → Conserves s' r
      → Conserves s r
  Takes-Conserves s s' id r t c = record {
    counts = λ a. omega (arith, c.counts a, t.counts a);
    valid = c.valid;
    same_number = c.same_number ∙ t.same_number;
  }

  execute_cached-Conserves :
      (id : ContextId) (s : Scheduler cq)
      → Exists cq id s
      → IsScheduler cq s
      → 0 < (context_at cq id s).cache_index
      → Conserves s (execute_cached cq id s)
  unfolding execute_cached
  execute_cached-Conserves id s there v pos =
      let c = context_at cq id s in
      let i = c.cache_index - 1 in
      let c' : WorkerContext cq = record c { cache_index = i } in
      let inside : c.cache_index ≤ length c.job_cache = IsContext-context_at cq id s there v in
      let e : c.cache_index ≡ suc i = omega arith in
      record {
        counts = λ a. omega (
          arith,
          waiting-set_context cq id c' s a there,
          count-take-suc a i c.job_cache (omega arith),
          ap (λ (k : ℕ). count a (take k c.job_cache)) e,
        );
        valid = set_context-IsScheduler cq id c' s (omega arith) v;
        same_number = num_workers-set_context cq id c' s;
      }

  Exists-same :
      (id : ContextId) (s s' : Scheduler cq)
      → s'.num_workers ≡ s.num_workers
      → Exists cq id s
      → Exists cq id s'
  Exists-same (worker i) s s' e h = omega arith
  Exists-same global s s' e h = tt

  fill_cache-Conserves :
      (id : ContextId) (jobs : List ℕ) (s s' : Scheduler cq)
      → Exists cq id s
      → (context_at cq id s).cache_index ≡ 0
      → Takes cq s id jobs s'
      → Conserves s (filled_cache, none, fill_cache cq id jobs s')
  unfolding fill_cache
  fill_cache-Conserves id jobs s s' there empty t =
      let c = context_at cq id s' in
      let c' : WorkerContext cq = record c {
        job_cache = overwrite jobs c.job_cache;
        cache_index = length jobs;
      } in
      let there' = Exists-same id s s' t.same_number there in
      let room : length jobs ≤ length c.job_cache = omega (arith, t.fits, t.same_size) in
      let none_left : c.cache_index ≡ 0 = t.same_index ∙ empty in
      record {
        counts = λ a. omega (
          arith,
          t.counts a,
          waiting-set_context cq id c' s' a there',
          ap (count a) (take-overwrite jobs c.job_cache room),
          ap (λ (k : ℕ). count a (take k c.job_cache)) none_left,
        );
        valid =
            set_context-IsScheduler cq id c' s' (omega (arith, length-overwrite jobs c.job_cache))
              t.valid;
        same_number = num_workers-set_context cq id c' s' ∙ t.same_number;
      }

  fill_or-Conserves :
      (id : ContextId) (s : Scheduler cq) (p : List ℕ × Scheduler cq)
      (rest : Scheduler cq → Round cq)
      → Exists cq id s
      → (context_at cq id s).cache_index ≡ 0
      → Takes cq s id p.0 p.1
      → (Takes cq s id [] p.1 → Conserves p.1 (rest p.1))
      → Conserves s (fill_or cq id p rest)
  fill_or-Conserves id s ([], s') rest there empty t go = Takes-Conserves s s' id _ t (go t)
  fill_or-Conserves id s (x ∷ xs, s') rest there empty t go =
      fill_cache-Conserves id (x ∷ xs) s s' there empty t

  idle-Conserves : (s : Scheduler cq) → IsScheduler cq s → Conserves s (empty_queue, none, s)
  idle-Conserves s v = record { counts = λ a. omega arith; valid = v; same_number = refl }

  -- What a round does once its own queue is empty, and once nothing could be stolen.
  abbrev from_global : ContextId → Scheduler cq → Round cq
  from_global id s =
      fill_or cq id (try_dequeue_global cq (cache_size cq id s) s) (λ s3. (empty_queue, none, s3))

  abbrev from_others : ℕ → ℕ → ContextId → Scheduler cq → Round cq
  from_others tls rng id s =
      fill_or cq id (try_steal cq tls rng (cache_size cq id s) s) (λ s2. from_global id s2)

  from_global-Conserves :
      (id : ContextId) (s : Scheduler cq)
      → Exists cq id s
      → (context_at cq id s).cache_index ≡ 0
      → IsScheduler cq s
      → Conserves s (from_global id s)
  from_global-Conserves id s there empty v =
      let n = cache_size cq id s in
      fill_or-Conserves id s (try_dequeue_global cq n s) _ there empty
        (try_dequeue_global-Takes cq n id s v (omega arith)) (λ t. idle-Conserves _ t.valid)

  from_others-Conserves :
      (tls rng : ℕ) (id : ContextId) (s : Scheduler cq)
      → Exists cq id s
      → (context_at cq id s).cache_index ≡ 0
      → IsScheduler cq s
      → Conserves s (from_others tls rng id s)
  from_others-Conserves tls rng id s there empty v =
      let n = cache_size cq id s in
      fill_or-Conserves id s (try_steal cq tls rng n s) _ there empty
        (try_steal-Takes cq tls rng n id s v (omega arith))
        (λ t.
          from_global-Conserves id _ (Exists-same id s _ t.same_number there) (t.same_index ∙ empty)
            t.valid)

  -- One round of a thread, on a context that exists, in a scheduler whose cache indices are in
  -- range and with memory for the queues: for every handle, its occurrences among the jobs that
  -- wait in the queues and caches are the same before and after, but that the job that the round
  -- resumes has left them; the cache indices stay in range.
  pub worker_thread_iteration-Conserves :
      (tls rng : ℕ) (id : ContextId) (s : Scheduler cq)
      → AlwaysEnqueues cq
      → Exists cq id s
      → IsScheduler cq s
      → Conserves s (worker_thread_iteration cq tls rng id s)
  unfolding worker_thread_iteration
  worker_thread_iteration-Conserves tls rng id s enough there v =
      elim (Bool-cases (ltb 0 (context_at cq id s).cache_index)) [
        | inl e ↦ rw e (execute_cached-Conserves id s there v (ltb→lt _ _ e))
        | inr e ↦
            let empty : (context_at cq id s).cache_index ≡ 0 = ground arith in
            rw e (
              fill_or-Conserves id s (pop_local cq tls id s) _ there empty
                (pop_local-Takes cq tls id s enough there v)
                (λ t.
                  from_others-Conserves tls rng id _ (Exists-same id s _ t.same_number there)
                    (t.same_index ∙ empty) t.valid))
      ]
