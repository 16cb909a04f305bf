-- ===== src/Jobs/WorkerQueue/Progress.antt =====
-- A pop or a steal comes back empty-handed only from empty queues.
use portal_framework.Base.{
  ℕ, ◌-◌, ◌≤◌, ◌<◌, ◌≡◌, ◌≢◌, refl, sym, ap, ◌∙◌, Bool, true, false, List, [], ◌∷◌, length,
  length-append, arith, ltb, Bool-cases, inl, inr,
}
use portal_framework.Jobs.ConcurrentQueue.{ConcurrentQueue}
use portal_framework.Jobs.WorkerQueue.{
  JobPriority, low, normal, high, get, put, PerPriority, WorkerQueue, pop_bulk, pop_more,
  try_pop_bulk, steal_more, attempt_steal, QueueSet,
}
use portal_framework.Jobs.WorkerQueue.Counters.{IsCounted}

nil_of_length {ℓ} : {A : Type ℓ} (xs : List A) → length xs ≡ 0 → xs ≡ []
nil_of_length [] e = refl
nil_of_length (x ∷ xs) e = absurd (omega arith)

get-put_ne {ℓ} :
    {A : Type ℓ} (p r : JobPriority) (v : A) (a : PerPriority A)
    → r ≢ p
    → get r (put p v a) ≡ get r a
get-put_ne low low v a ne = absurd (ne refl)
get-put_ne low normal v a ne = refl
get-put_ne low high v a ne = refl
get-put_ne normal low v a ne = refl
get-put_ne normal normal v a ne = absurd (ne refl)
get-put_ne normal high v a ne = refl
get-put_ne high low v a ne = refl
get-put_ne high normal v a ne = refl
get-put_ne high high v a ne = absurd (ne refl)

module _ (cq : ConcurrentQueue) where
  open cq use {Queue, items}

  abbrev pub AllEmpty : QueueSet cq → Type 0
  AllEmpty s = (items s.at_high ≡ []) × (items s.at_normal ≡ []) × (items s.at_low ≡ [])

  pop_more-nil :
      (p : JobPriority) (n : ℕ) (jobs : List ℕ) (w : WorkerQueue cq)
      → 0 < n
      → length (pop_more cq p n (jobs, w)).0 ≡ 0
      → (length jobs ≡ 0) × (items (get p w.local_set) ≡ [])
  unfolding pop_more pop_bulk
  pop_more-nil p n jobs w pos e =
      let k = n - length jobs in
      let q = get p w.local_set in
      let out = (cq.try_dequeue_bulk k q).0 in
      elim (Bool-cases (ltb (length jobs) n)) [
        | inr full ↦ absurd (omega (arith, rw full at e, no_room full))
        | inl room ↦
            let both = rw room at e in
            (
              omega (arith, both, length-append jobs out),
              cq.try_dequeue_bulk-nil k q (omega (arith, both, length-append jobs out))
                  (nil_of_length out (omega (arith, both, length-append jobs out))),
            )
      ]
    where
      no_room : ltb (length jobs) n ≡ false → n ≤ length jobs
      no_room h = ground arith

  pop_more-low :
      (n : ℕ) (r : List ℕ × WorkerQueue cq)
      → (pop_more cq normal n r).1.local_set.at_low ≡ r.1.local_set.at_low
  unfolding pop_more pop_bulk
  pop_more-low n (jobs, w) = ground arith

  -- With room for a job, `try_pop_bulk` returns none only if the three local queues are empty.
  pub try_pop_bulk-nil :
      (max_count : ℕ) (w : WorkerQueue cq)
      → 0 < max_count
      → (try_pop_bulk cq max_count w).0 ≡ []
      → AllEmpty w.local_set
  unfolding try_pop_bulk pop_bulk
  try_pop_bulk-nil n w pos e =
      let h = pop_bulk cq high n w in
      let m = pop_more cq normal n h in
      let (e2, low_empty) = pop_more-nil low n m.0 m.1 pos (ap length e) in
      let (e1, normal_empty) = pop_more-nil normal n h.0 h.1 pos e2 in
      (
        cq.try_dequeue_bulk-nil n w.local_set.at_high pos (nil_of_length h.0 e1),
        normal_empty,
        ap items (sym (pop_more-low n h)) ∙ low_empty,
      )

  -- A block only adds to the jobs.
  steal_more-zero :
      (p : JobPriority) (n : ℕ) (r : Bool × List ℕ × WorkerQueue cq)
      → length (steal_more cq p n r).1 ≡ 0
      → length r.1 ≡ 0
  unfolding steal_more
  steal_more-zero p n (true, jobs, w) e = e
  steal_more-zero p n (false, jobs, w) e =
      let out = (cq.try_dequeue_bulk (n - length jobs) (get p w.stealable_set)).0 in
      ground (arith, length-append jobs out)

  -- The stealable queues and counters of the other priorities are as they were.
  abbrev Agrees : JobPriority → WorkerQueue cq → WorkerQueue cq → Type 0
  Agrees p w w' =
      (r : JobPriority)
      → r ≢ p
      → (get r w'.stealable_set ≡ get r w.stealable_set)
        × (get r w'.stealable_count ≡ get r w.stealable_count)

  steal_more-nil :
      (p : JobPriority) (n : ℕ) (w : WorkerQueue cq)
      → 0 < n
      → get p w.stealable_count ≡ length (items (get p w.stealable_set))
      → length (steal_more cq p n (false, [], w)).1 ≡ 0
      → (w' : WorkerQueue cq) × (steal_more cq p n (false, [], w) ≡ (false, [], w'))
        × (items (get p w.stealable_set) ≡ [])
        × Agrees p w w'
  unfolding steal_more
  steal_more-nil p n w pos c e =
      let q = get p w.stealable_set in
      let k = n - 0 in
      let (out, q') = cq.try_dequeue_bulk k q in
      elim (Bool-cases (ltb 0 (get p w.stealable_count))) [
        | inr none_there ↦
            (w, rw none_there, nil_of_length (items q) (ground arith), λ r ne. (refl, refl))
        | inl some_there ↦ elim (Bool-cases (ltb 0 (length out))) [
          | inl found ↦ absurd (ground arith)
          | inr missed ↦ (
            record w { stealable_set = put p q' w.stealable_set },
            rw (some_there, missed),
            cq.try_dequeue_bulk-nil k q (omega arith) (nil_of_length out (ground arith)),
            λ r ne. (get-put_ne p r q' w.stealable_set ne, refl),
          )
        ]
      ]

  -- With room for a job, and counters that are right, `attempt_steal` returns none only if the
  -- victim's three stealable queues are empty.
  pub attempt_steal-nil :
      (max_count : ℕ) (w : WorkerQueue cq)
      → 0 < max_count
      → IsCounted cq w
      → (attempt_steal cq max_count w).0 ≡ []
      → AllEmpty w.stealable_set
  unfolding attempt_steal
  attempt_steal-nil n w pos v e =
      let h = steal_more cq high n (false, [], w) in
      let m = steal_more cq normal n h in
      let em : length m.1 ≡ 0 = steal_more-zero low n m (ap length e) in
      let eh : length h.1 ≡ 0 = steal_more-zero normal n h em in
      let (w1, f1, high_empty, a1) = steal_more-nil high n w pos (v.stealable high) eh in
      let (n1, c1) = a1 normal (λ x. cc) in
      let (l1, d1) = a1 low (λ x. cc) in
      let count1 : w1.stealable_count.at_normal ≡ length (items w1.stealable_set.at_normal) =
        c1 ∙ v.stealable normal ∙ ap (λ q. length (items q)) (sym n1) in
      let (w2, f2, normal_empty, a2) = steal_more-nil normal n w1 pos count1 (rw f1 at em) in
      let (l2, d2) = a2 low (λ x. cc) in
      let count2 : w2.stealable_count.at_low ≡ length (items w2.stealable_set.at_low) =
        d2 ∙ d1 ∙ v.stealable low ∙ ap (λ q. length (items q)) (sym l1 ∙ sym l2) in
      let last : length (steal_more cq low n (false, [], w2)).1 ≡ 0 =
        rw (f1, f2) at (ap length e) in
      let (w3, f3, low_empty, a3) = steal_more-nil low n w2 pos count2 last in
      (high_empty, ap items (sym n1) ∙ normal_empty, ap items (sym l1 ∙ sym l2) ∙ low_empty)
