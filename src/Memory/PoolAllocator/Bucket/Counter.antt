-- ===== src/Memory/PoolAllocator/Bucket/Counter.antt =====
-- The counter of a bucket pool against the buckets that its client holds.
use portal_framework.Base.{
  ℕ, ◌+◌, ◌%◌, ◌^◌, ◌<◌, ◌≡◌, ◌≢◌, refl, List, [], ◌∷◌, Bool, true, Option, some, ok, arith, length,
  if◌then◌else◌, subst,
}
use portal_framework.Base.Counting.{count, remove, length-remove}
use portal_framework.Memory.PoolAllocator
use portal_framework.Memory.PoolAllocator.{Pool, zeroed, store, take_slot}
use portal_framework.Memory.PoolAllocator.FreeList.{slots}
use portal_framework.Memory.PoolAllocator.History.{
  IsPool, take_slot-cons, take_slot-nil, clear-IsPool, taken, taken-IsPool, free-IsPool,
  writes-IsPool,
}
use portal_framework.Memory.PoolAllocator.Bucket.{
  BucketPool, clear, create, alloc, free, get_allocation_size,
}

-- The holder of the bucket at `p` writes the word `v` into it.
abbrev pub write : ℕ → Option ℕ → BucketPool → BucketPool
write p v s = let q = s.pool in record s { pool = record q { cell = store p v q.cell } }

module _ (b c : ℕ) (check : Bool) where
  pub data Step (s : BucketPool) (held : List ℕ) : BucketPool → List ℕ → Type 0 where
    allocates :
        (p : ℕ) (s' : BucketPool) → alloc b c check s ≡ ok (p, s') → Step s held s' (p ∷ held)
    frees : (p : ℕ) → count p held ≢ 0 → Step s held (free b c check (some p) s) (remove p held)
    writes : (p : ℕ) (v : Option ℕ) → count p held ≢ 0 → Step s held (write p v s) held

  pub data Reach (s : BucketPool) (held : List ℕ) : BucketPool → List ℕ → Type 0 where
    here : Reach s held s held
    next :
        {t : BucketPool} {ps : List ℕ} {u : BucketPool} {qs : List ℕ}
        → Reach s held t ps
        → Step t ps u qs
        → Reach s held u qs

  -- The counter counts the buckets that are held.
  record IsCounted (s : BucketPool) (held : List ℕ) : Type 0 where
    free_buckets : List ℕ
    is_pool : IsPool b c s.pool free_buckets held
    counted : check ≡ true → s.allocated_buckets ≡ length held

  create-IsCounted : 0 < b → 0 < c → IsCounted (create b c check) []
  unfolding create PoolAllocator.create get_allocation_size
  create-IsCounted pos pos' = record {
    free_buckets = slots b c 0;
    is_pool = clear-IsPool b c zeroed pos pos';
    counted = λ e. refl;
  }

  abbrev bumped : BucketPool → ℕ
  bumped s = if check then (s.allocated_buckets + 1) % 2 ^ 64 else s.allocated_buckets

  alloc-eq :
      (s : BucketPool) (held : List ℕ) (p : ℕ) (s' : BucketPool) (ps : List ℕ)
      → IsPool b c s.pool ps held
      → alloc b c check s ≡ ok (p, s')
      → (qs : List ℕ) × (ps ≡ p ∷ qs)
        × (s' ≡ record { pool = taken b c p qs s.pool; allocated_buckets = bumped s })
  unfolding alloc
  alloc-eq s held p s' [] v e = cc (take_slot-nil b c s.pool held v)
  alloc-eq s held p s' (q ∷ qs) v e =
      let f = take_slot-cons b c s.pool q qs held v in (qs, ground (arith, f), ground (arith, f))

  alloc-IsCounted :
      (s : BucketPool) (held : List ℕ) (p : ℕ) (s' : BucketPool)
      → 0 < b
      → c < 2 ^ 64
      → IsCounted s held
      → alloc b c check s ≡ ok (p, s')
      → IsCounted s' (p ∷ held)
  alloc-IsCounted s held p s' pos small v e =
      let (qs, e1, e2) = alloc-eq s held p s' v.free_buckets v.is_pool e in
      let w : IsPool b c s.pool (p ∷ qs) held =
        subst (λ ps. IsPool b c s.pool ps held) e1 v.is_pool in
      rw e2 (record {
        free_buckets = qs;
        is_pool = taken-IsPool b c s.pool p qs held w;
        counted = λ on. ground (arith, v.counted on, w.total);
      })

  free-IsCounted :
      (s : BucketPool) (held : List ℕ) (p : ℕ)
      → 0 < b
      → c < 2 ^ 64
      → IsCounted s held
      → count p held ≢ 0
      → IsCounted (free b c check (some p) s) (remove p held)
  unfolding free
  free-IsCounted s held p pos small v h = record {
    free_buckets = p ∷ v.free_buckets;
    is_pool = free-IsPool b c s.pool p v.free_buckets held pos v.is_pool h;
    counted = λ e. ground (arith, v.counted e, length-remove p held h, v.is_pool.total);
  }

  Step-IsCounted :
      (s : BucketPool) (held : List ℕ) {s' : BucketPool} {held' : List ℕ}
      → 0 < b
      → c < 2 ^ 64
      → Step s held s' held'
      → IsCounted s held
      → IsCounted s' held'
  Step-IsCounted s held pos small (allocates p s' e) v = alloc-IsCounted s held p s' pos small v e
  Step-IsCounted s held pos small (frees p h) v = free-IsCounted s held p pos small v h
  Step-IsCounted s held pos small (writes p w h) v = record {
    free_buckets = v.free_buckets;
    is_pool = writes-IsPool b c s.pool p w v.free_buckets held pos v.is_pool h;
    counted = v.counted;
  }

  Reach-IsCounted :
      (s : BucketPool) (held : List ℕ) {s' : BucketPool} {held' : List ℕ}
      → 0 < b
      → c < 2 ^ 64
      → Reach s held s' held'
      → IsCounted s held
      → IsCounted s' held'
  Reach-IsCounted s held pos small here v = v
  Reach-IsCounted s held pos small (next {t = t} {ps = ps} r st) v =
      Step-IsCounted t ps pos small st (Reach-IsCounted s held pos small r v)

-- With `check_allocations`, and fewer than 2 ^ 64 buckets, `get_allocation_size` is the number of
-- buckets that are held after any history of allocations, frees of held buckets and writes into held
-- buckets, from a new pool with buckets.
pub Reach-get_allocation_size :
    (b c : ℕ) (s : BucketPool) (held : List ℕ)
    → 0 < b
    → 0 < c
    → c < 2 ^ 64
    → Reach b c true (create b c true) [] s held
    → get_allocation_size b c true s ≡ length held
unfolding get_allocation_size
Reach-get_allocation_size b c s held pos pos' small r =
    let v : IsCounted b c true s held =
      Reach-IsCounted b c true (create b c true) [] pos small r
        (create-IsCounted b c true pos pos') in
    v.counted refl

-- `clear` makes every bucket free again and does not reset the counter: when it is called while
-- buckets are held, `get_allocation_size` goes on counting them.
pub clear-get_allocation_size :
    (b c : ℕ) (s : BucketPool) (held : List ℕ)
    → 0 < b
    → 0 < c
    → c < 2 ^ 64
    → Reach b c true (create b c true) [] s held
    → let t = clear b c true s in
      IsPool b c t.pool (slots b c 0) [] × (get_allocation_size b c true t ≡ length held)
unfolding clear get_allocation_size
clear-get_allocation_size b c s held pos pos' small r =
    (clear-IsPool b c s.pool pos pos', Reach-get_allocation_size b c s held pos pos' small r)
