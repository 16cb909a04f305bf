-- ===== src/Jobs/WorkerQueue/Counters.antt =====
-- The counters beside the queues tell how many jobs the queues hold.
use portal_framework.Base.{
  ℕ, ◌+◌, ◌-◌, ◌^◌, ◌≤◌, ◌<◌, ◌≡◌, refl, subst, List, [], ◌∷◌, ◌++◌, length, length-append, arith,
  ltb, Bool-cases, inl, inr, Option-cases,
}
use portal_framework.Jobs.ConcurrentQueue.{ConcurrentQueue, SameItems}
use portal_framework.Jobs.WorkerQueue.{
  JobPriority, low, normal, high, PerPriority, get, put, WorkerQueue, pop_one, try_pop, pop_bulk,
  pop_more, try_pop_bulk, move_to_stealable, migrate_jobs_to_stealable, QueueSet, move_count,
  fetch_add, fetch_sub,
}
use portal_framework.Jobs.WorkerQueue.Contents.{total, set_total, AlwaysEnqueues}
use portal_framework.Jobs.WorkerQueue.Moves.{
  pop_bulk-Releases, pop_one-Releases, move_to_stealable-Releases,
}

module _ (cq : ConcurrentQueue) where
  open cq use {Queue, items}

  abbrev pub Counted : PerPriority ℕ → QueueSet cq → Type 0
  Counted c s = (p : JobPriority) → get p c ≡ length (items (get p s))

  put-Counted :
      (p : JobPriority) (c : PerPriority ℕ) (s : QueueSet cq) (n : ℕ) (q : Queue)
      → Counted c s
      → n ≡ length (items q)
      → Counted (put p n c) (put p q s)
  put-Counted low c s n q h e low = e
  put-Counted low c s n q h e normal = h normal
  put-Counted low c s n q h e high = h high
  put-Counted normal c s n q h e low = h low
  put-Counted normal c s n q h e normal = e
  put-Counted normal c s n q h e high = h high
  put-Counted high c s n q h e low = h low
  put-Counted high c s n q h e normal = h normal
  put-Counted high c s n q h e high = e

  pub length-get-le :
      (p : JobPriority) (s : QueueSet cq) → length (items (get p s)) ≤ set_total cq s
  length-get-le low s = omega arith
  length-get-le normal s = omega arith
  length-get-le high s = omega arith

  -- A queue that has lost `out`, and its counter.
  pub sub-Counted :
      (p : JobPriority) (c : PerPriority ℕ) (s : QueueSet cq) (q : Queue) (out : List ℕ)
      → SameItems (out ++ items q) (items (get p s))
      → set_total cq s < 2 ^ 64
      → Counted c s
      → Counted (fetch_sub p (length out) c) (put p q s)
  sub-Counted p c s q out same small h =
      put-Counted p c s _ q h
        (omega (arith, h p, same.lengths, length-append out (items q), length-get-le p s))

  -- One that has gained `new`.
  pub add-Counted :
      (p : JobPriority) (c : PerPriority ℕ) (s : QueueSet cq) (q : Queue) (new : List ℕ)
      → SameItems (items q) (new ++ items (get p s))
      → set_total cq s + length new < 2 ^ 64
      → Counted c s
      → Counted (fetch_add p (length new) c) (put p q s)
  add-Counted p c s q new same small h =
      put-Counted p c s _ q h
        (omega (arith, h p, same.lengths, length-append new (items (get p s)), length-get-le p s))

  put-get : (p : JobPriority) (c : PerPriority ℕ) → put p (get p c) c ≡ c
  put-get low c = refl
  put-get normal c = refl
  put-get high c = refl

  -- A queue that has lost nothing.
  pub same-Counted :
      (p : JobPriority) (c : PerPriority ℕ) (s : QueueSet cq) (q : Queue) (out : List ℕ)
      → SameItems (out ++ items q) (items (get p s))
      → length out ≡ 0
      → Counted c s
      → Counted c (put p q s)
  same-Counted p c s q out same none_out h =
      subst (λ d. Counted d (put p q s)) (put-get p c)
        (put-Counted p c s (get p c) q h
          (omega (arith, h p, same.lengths, length-append out (items q))))

  pub record IsCounted (w : WorkerQueue cq) : Type 0 where
    pub local : Counted w.local_count w.local_set
    pub stealable : Counted w.stealable_count w.stealable_set
    pub small : total cq w < 2 ^ 64

  pop_bulk-IsCounted :
      (p : JobPriority) (n : ℕ) (w : WorkerQueue cq) → IsCounted w → IsCounted (pop_bulk cq p n w).1
  unfolding pop_bulk
  pop_bulk-IsCounted p n w v = record {
    local =
        sub-Counted p w.local_count w.local_set _ _
          (cq.items-try_dequeue_bulk n (get p w.local_set)) (omega (arith, v.small)) v.local;
    stealable = v.stealable;
    small = omega (arith, v.small, (pop_bulk-Releases cq p n w).lengths);
  }

  pop_more-IsCounted :
      (p : JobPriority) (n : ℕ) (r : List ℕ × WorkerQueue cq)
      → IsCounted r.1
      → IsCounted (pop_more cq p n r).1
  unfolding pop_more
  pop_more-IsCounted p n (jobs, w) v = elim (Bool-cases (ltb (length jobs) n)) [
    | inl e ↦ rw e (pop_bulk-IsCounted p (n - length jobs) w v)
    | inr e ↦ rw e v
  ]

  pub try_pop_bulk-IsCounted :
      (n : ℕ) (w : WorkerQueue cq) → IsCounted w → IsCounted (try_pop_bulk cq n w).1
  unfolding try_pop_bulk
  try_pop_bulk-IsCounted n w v =
      pop_more-IsCounted low n _ (pop_more-IsCounted normal n _ (pop_bulk-IsCounted high n w v))

  pop_one-local :
      (p : JobPriority) (w : WorkerQueue cq)
      → IsCounted w
      → let w' = (pop_one cq p w).1 in
        Counted w'.local_count w'.local_set × Counted w'.stealable_count w'.stealable_set
  unfolding pop_one
  pop_one-local p w v =
      let q = get p w.local_set in
      let law = cq.items-try_dequeue q in
      let small : set_total cq w.local_set < 2 ^ 64 = omega (arith, v.small) in
      elim (Option-cases (cq.try_dequeue q).0) [
        | inl e ↦
            rw (e, pop_one)
              (
                same-Counted p w.local_count w.local_set _ [] (rw e at law) refl v.local,
                v.stealable,
              )
        | inr (x, e) ↦
            rw (e, pop_one)
              (
                sub-Counted p w.local_count w.local_set _ (x ∷ []) (rw e at law) small v.local,
                v.stealable,
              )
      ]

  pub pop_one-IsCounted :
      (p : JobPriority) (w : WorkerQueue cq) → IsCounted w → IsCounted (pop_one cq p w).1
  pop_one-IsCounted p w v =
      let (l, s) = pop_one-local p w v in
      record {
        local = l;
        stealable = s;
        small = omega (arith, v.small, (pop_one-Releases cq p w).lengths);
      }

  pub try_pop-IsCounted : (w : WorkerQueue cq) → IsCounted w → IsCounted (try_pop cq w).1
  unfolding try_pop
  try_pop-IsCounted w v =
      let h = pop_one cq high w in
      let n = pop_one cq normal h.1 in
      let vh = pop_one-IsCounted high w v in
      let vn = pop_one-IsCounted normal h.1 vh in
      let vl = pop_one-IsCounted low n.1 vn in
      elim (Option-cases h.0) [
        | inr (x, e) ↦ rw (e, try_pop) vh
        | inl e ↦ elim (Option-cases n.0) [
          | inr (x, f) ↦ rw (e, f, try_pop) vn
          | inl f ↦ rw (e, f, try_pop) vl
        ]
      ]

  move_to_stealable-local :
      (p : JobPriority) (w : WorkerQueue cq)
      → AlwaysEnqueues cq
      → IsCounted w
      → let w' = move_to_stealable cq p w in
        Counted w'.local_count w'.local_set × Counted w'.stealable_count w'.stealable_set
  unfolding move_to_stealable
  move_to_stealable-local p w enough v =
      let q = get p w.local_set in
      let jobs = (cq.try_dequeue_bulk move_count q).0 in
      let s = get p w.stealable_set in
      let taken = cq.items-try_dequeue_bulk move_count q in
      let given = rw (enough.1 jobs s) at (cq.items-enqueue_bulk jobs s) in
      let small : set_total cq w.local_set < 2 ^ 64 = omega (arith, v.small) in
      let room : set_total cq w.stealable_set + length jobs < 2 ^ 64 = omega (
        arith,
        v.small,
        taken.lengths,
        length-append jobs (items (cq.try_dequeue_bulk move_count q).1),
        length-get-le p w.local_set,
      ) in
      elim (Bool-cases (ltb 64 (get p w.local_count))) [
        | inr few ↦ rw few (v.local, v.stealable)
        | inl many ↦ elim (Bool-cases (ltb 0 (length jobs))) [
          | inl some_jobs ↦
              rw (many, some_jobs, enough.1 jobs s)
                (
                  sub-Counted p w.local_count w.local_set _ jobs taken small v.local,
                  add-Counted p w.stealable_count w.stealable_set _ jobs given room v.stealable,
                )
          | inr no_jobs ↦
              rw (many, no_jobs)
                (
                  same-Counted p w.local_count w.local_set _ jobs taken (ground arith) v.local,
                  v.stealable,
                )
        ]
      ]

  pub move_to_stealable-IsCounted :
      (p : JobPriority) (w : WorkerQueue cq)
      → AlwaysEnqueues cq
      → IsCounted w
      → IsCounted (move_to_stealable cq p w)
  move_to_stealable-IsCounted p w enough v =
      let (l, s) = move_to_stealable-local p w enough v in
      record {
        local = l;
        stealable = s;
        small = omega (arith, v.small, (move_to_stealable-Releases cq p w enough).lengths);
      }

  pub migrate-IsCounted :
      (w : WorkerQueue cq)
      → AlwaysEnqueues cq
      → IsCounted w
      → IsCounted (migrate_jobs_to_stealable cq w)
  unfolding migrate_jobs_to_stealable
  migrate-IsCounted w enough v =
      move_to_stealable-IsCounted low _ enough
        (move_to_stealable-IsCounted normal _ enough (move_to_stealable-IsCounted high w enough v))
