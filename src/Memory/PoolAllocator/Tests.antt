-- ===== src/Memory/PoolAllocator/Tests.antt =====
-- A pool of three slots of 16 bytes, and the theorems at concrete inputs.
use portal_framework.Base.{
  ℕ, ◌≡◌, refl, List, [], ◌∷◌, none, some, ok, err, Error, arith, true, false, Result, ◌>>=◌,
}
use portal_framework.Memory.PoolAllocator
use portal_framework.Memory.PoolAllocator.{Pool, create, alloc, free}
use portal_framework.Memory.PoolAllocator.History.{Reach, Step}
use portal_framework.Memory.PoolAllocator.Ownership.{Outcome, Reach-alloc}
use portal_framework.Memory.PoolAllocator.Bucket
use portal_framework.Memory.PoolAllocator.Bucket.{BucketPool}
use portal_framework.Memory.PoolAllocator.Bucket.Counter
use portal_framework.Memory.PoolAllocator.Bucket.Counter.{
  Reach-get_allocation_size, clear-get_allocation_size,
}

-- Three allocations, and the word that is left in the third slot.
abbrev drain : Result (List ℕ × Pool)
drain = do
  (p, s1) ← alloc 16 3 none (create 16 3)
  (q, s2) ← alloc 16 3 (some 7) s1
  (r, s3) ← alloc 16 3 none s2
  ok (p ∷ q ∷ r ∷ [], s3)

abbrev places : Result (List ℕ × Pool) → List ℕ
places (ok (ps, s)) = ps
places (err e) = []

drain-places : places drain ≡ 0 ∷ 16 ∷ 32 ∷ []
unfolding alloc create
drain-places = refl

drain-full : (drain >>= λ r. alloc 16 3 none r.1) ≡ err Error.bad_alloc
unfolding alloc create
drain-full = refl

-- The pool after the first allocation.
abbrev first : Pool
first = record {
  cell = λ q. PoolAllocator.store 0 none (create 16 3).cell q;
  head = (create 16 3).cell 0;
  full = false;
}

alloc-first : alloc 16 3 none (create 16 3) ≡ ok (0, first)
unfolding alloc create
alloc-first = refl

Reach-first : Reach 16 3 (create 16 3) [] first (0 ∷ [])
Reach-first = Reach.next Reach.here (Step.allocates none 0 first alloc-first)

Reach-alloc_example : Outcome 16 3 (omega arith) (omega arith) (0 ∷ []) (alloc 16 3 none first)
Reach-alloc_example = Reach-alloc 16 3 (omega arith) (omega arith) first (0 ∷ []) none Reach-first

abbrev one_bucket : BucketPool
one_bucket = record {
  pool = record (create 16 3) { head = (create 16 3).cell 0 };
  allocated_buckets = 1;
}

alloc-one_bucket : Bucket.alloc 16 3 true (Bucket.create 16 3 true) ≡ ok (0, one_bucket)
unfolding Bucket.alloc Bucket.create PoolAllocator.take_slot create
alloc-one_bucket = refl

Reach-one_bucket : Counter.Reach 16 3 true (Bucket.create 16 3 true) [] one_bucket (0 ∷ [])
Reach-one_bucket =
    Counter.Reach.next Counter.Reach.here (Counter.Step.allocates 0 one_bucket alloc-one_bucket)
