-- ===== src/Jobs/WorkerQueue/Order.antt =====
-- Which jobs a pop or a steal hands out, and how many.
use portal_framework.Base.{
  ℕ, ◌-◌, ◌≤◌, ◌≡◌, ◌≢◌, Bool, true, false, Option, none, some, List, [], length, length-append,
  arith, ◌⊎◌, inl, inr, Option-cases,
}
use portal_framework.Base.Counting.{count}
use portal_framework.Jobs.ConcurrentQueue.{ConcurrentQueue}
use portal_framework.Jobs.WorkerQueue.{
  JobPriority, low, normal, high, get, WorkerQueue, pop_one, try_pop, pop_bulk, pop_more,
  try_pop_bulk, steal_more, attempt_steal, QueueSet,
}

module _ (cq : ConcurrentQueue) where
  open cq use {Queue, items}

  pop_more-le :
      (p : JobPriority) (n : ℕ) (r : List ℕ × WorkerQueue cq)
      → length r.0 ≤ n
      → length (pop_more cq p n r).0 ≤ n
  unfolding pop_more pop_bulk
  pop_more-le p n (jobs, w) h =
      let k = n - length jobs in
      let q = get p w.local_set in
      ground (arith, cq.try_dequeue_bulk-le k q, length-append jobs (cq.try_dequeue_bulk k q).0)

  -- `try_pop_bulk` writes at most `max_count` handles to its buffer.
  pub try_pop_bulk-le :
      (max_count : ℕ) (w : WorkerQueue cq) → length (try_pop_bulk cq max_count w).0 ≤ max_count
  unfolding try_pop_bulk pop_bulk
  try_pop_bulk-le n w =
      pop_more-le low n _ (pop_more-le normal n _ (cq.try_dequeue_bulk-le n w.local_set.at_high))

  steal_more-le :
      (p : JobPriority) (n : ℕ) (r : Bool × List ℕ × WorkerQueue cq)
      → length r.1 ≤ n
      → length (steal_more cq p n r).1 ≤ n
  unfolding steal_more
  steal_more-le p n (true, jobs, w) h = h
  steal_more-le p n (false, jobs, w) h =
      let k = n - length jobs in
      let q = get p w.stealable_set in
      ground (arith, cq.try_dequeue_bulk-le k q, length-append jobs (cq.try_dequeue_bulk k q).0)

  -- `attempt_steal` writes at most `max_count` handles to its buffer.
  pub attempt_steal-le :
      (max_count : ℕ) (w : WorkerQueue cq) → length (attempt_steal cq max_count w).0 ≤ max_count
  unfolding attempt_steal
  attempt_steal-le n w =
      steal_more-le low n _
        (steal_more-le normal n _ (steal_more-le high n (false, [], w) (omega arith)))

  high-normal :
      (w : WorkerQueue cq) → (pop_one cq high w).1.local_set.at_normal ≡ w.local_set.at_normal
  unfolding pop_one
  high-normal w = ground arith

  high-low : (w : WorkerQueue cq) → (pop_one cq high w).1.local_set.at_low ≡ w.local_set.at_low
  unfolding pop_one
  high-low w = ground arith

  normal-low : (w : WorkerQueue cq) → (pop_one cq normal w).1.local_set.at_low ≡ w.local_set.at_low
  unfolding pop_one
  normal-low w = ground arith

  -- What a look into one queue says of it.
  abbrev Found : Option ℕ → Queue → Type 0
  Found none q = items q ≡ []
  Found (some x) q = count x (items q) ≢ 0

  pop_one-Found :
      (p : JobPriority) (w : WorkerQueue cq) → Found (pop_one cq p w).0 (get p w.local_set)
  unfolding pop_one
  pop_one-Found p w =
      let q = get p w.local_set in
      let law = cq.items-try_dequeue q in
      elim (Option-cases (cq.try_dequeue q).0) [
        | inl e ↦ rw (e, pop_one) (cq.try_dequeue-none q e)
        | inr (x, e) ↦
            let law' = rw e at law in rw (e, pop_one) (λ z. ground (arith, law'.counts x))
      ]

  -- The job comes from the first queue, in the order high, normal, low, that is not empty; there is
  -- none only if all are empty.
  abbrev pub IsFirst : Option ℕ → QueueSet cq → Type 0
  IsFirst none s = (items s.at_high ≡ []) × (items s.at_normal ≡ []) × (items s.at_low ≡ [])
  IsFirst (some x) s =
      (count x (items s.at_high) ≢ 0)
      ⊎ ((items s.at_high ≡ [])
          × ((count x (items s.at_normal) ≢ 0)
              ⊎ ((items s.at_normal ≡ []) × (count x (items s.at_low) ≢ 0))))

  -- `try_pop` serves the priorities in order: a job comes from a queue only if the queues of higher
  -- priority are empty, and no job comes only if all three local queues are empty.
  pub try_pop-IsFirst : (w : WorkerQueue cq) → IsFirst (try_pop cq w).0 w.local_set
  unfolding try_pop
  try_pop-IsFirst w =
      let h = pop_one cq high w in
      let n = pop_one cq normal h.1 in
      let l = pop_one cq low n.1 in
      let fh = pop_one-Found high w in
      let fn = rw (high-normal w) at (pop_one-Found normal h.1) in
      let fl = rw (normal-low h.1, high-low w) at (pop_one-Found low n.1) in
      elim (Option-cases h.0) [
        | inr (x, e) ↦ rw (e, try_pop) (inl (rw e at fh))
        | inl e ↦ elim (Option-cases n.0) [
          | inr (x, f) ↦ rw (e, f, try_pop) (inr (rw e at fh, inl (rw f at fn)))
          | inl f ↦ elim (Option-cases l.0) [
            | inr (x, g) ↦ rw (e, f, g, try_pop) (inr (rw e at fh, inr (rw f at fn, rw g at fl)))
            | inl g ↦ rw (e, f, g, try_pop) (rw e at fh, rw f at fn, rw g at fl)
          ]
        ]
      ]
