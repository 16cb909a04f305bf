-- ===== src/Memory/PoolAllocator/Bucket.antt =====
-- core/portal/core/memory/pool_allocator.h: `BucketPoolAllocator<B, C, L, check_allocations>`, whose
-- list of free buckets is that of `PoolAllocator`, and which may count its allocations. `check` is
-- the template's `check_allocations`. The counter is a `size_t`.
pub mod Counter
use portal_framework.Base.{
  ℕ, suc, ◌+◌, ◌-◌, ◌%◌, ◌^◌, ◌≤◌, ◌<◌, ◌≡◌, ◌≢◌, refl, List, [], ◌∷◌, Bool, true, false, Option,
  none, some, Result, ok, err, Error, arith, length, ◌==◌, if◌then◌else◌, ◌>>=◌, sym, subst, ◌∙◌,
}
use portal_framework.Memory.PoolAllocator
use portal_framework.Memory.PoolAllocator.{Pool, take_slot}

pub record BucketPool : Type 0 where
  pub pool : Pool
  pub allocated_buckets : ℕ

module _ (b c : ℕ) (check : Bool) where
  -- `clear()`, which leaves the counter as it is.
  unfoldable pub clear : BucketPool → BucketPool
  clear s = record s { pool = PoolAllocator.clear b c s.pool }

  -- `BucketPoolAllocator()`
  unfoldable pub create : BucketPool
  create = record { pool = PoolAllocator.create b c; allocated_buckets = 0 }

  unfoldable pub alloc : BucketPool → Result (ℕ × BucketPool)
  alloc s = do
    (p, t) ← take_slot b c s.pool
    ok (
      p,
      record {
        pool = t;
        allocated_buckets =
            if check then (s.allocated_buckets + 1) % 2 ^ 64 else s.allocated_buckets;
      },
    )

  unfoldable pub free : Option ℕ → BucketPool → BucketPool
  free none s = s
  free (some p) s = record {
    pool = PoolAllocator.free (some p) s.pool;
    allocated_buckets =
        if check then (s.allocated_buckets + 2 ^ 64 - 1) % 2 ^ 64 else s.allocated_buckets;
  }

  -- `get_allocation_size()`, which the template has only where `check_allocations` holds.
  unfoldable pub get_allocation_size : BucketPool → ℕ
  get_allocation_size s = s.allocated_buckets
