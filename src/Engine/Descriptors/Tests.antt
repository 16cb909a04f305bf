-- ===== src/Engine/Descriptors/Tests.antt =====
-- A device that counts its pools, and an allocator on it.
use portal_framework.Base.{
  ℕ, suc, ◌+◌, ◌≤◌, max, ◌≡◌, refl, ap, subst, Option, none, some, List, [], ◌∷◌, ◌==◌,
  if◌then◌else◌,
}
use portal_framework.Base.Counting.{count, remove, count-remove}
use portal_framework.Engine.Descriptors.{
  allocated, out_of_pool_memory, Device, DescriptorAllocator, create, allocate, get_pool,
  handle_pool_resize, next_sets_per_pool,
}
use portal_framework.Engine.Descriptors.Ownership.{
  Counts, Step, allocates, Reach, here, onward, Reach-live,
}
use portal_framework.Engine.Descriptors.Sizes.{Reach-sets_per_pool}

-- The handles that live, the next handle first; every pool but the last one made is out of memory.
abbrev World : Type 0
World = ℕ × List ℕ

abbrev device : Device World
device = record {
  create_pool = λ n w. (some w.0, (suc w.0, w.0 ∷ w.1));
  allocate_sets = λ p w. (
    if suc p == w.0
        then (if p == 0 then out_of_pool_memory else allocated p)
        else out_of_pool_memory,
    w,
  );
  reset = λ p w. w;
  destroy = λ p w. (w.0, remove p w.1);
}

abbrev handle_of : Option ℕ → ℕ
handle_of none = 0
handle_of (some p) = p

counted :
    (q : ℕ) (w w' : World) (p : ℕ)
    → ◌≡◌ {A = Option ℕ × World} (some w.0, (suc w.0, w.0 ∷ w.1)) (some p, w')
    → count q w'.1 ≡ (if q == p then 1 else 0) + count q w.1
counted q w w' p e =
    let held : w.0 ∷ w.1 ≡ w'.1 = ap (λ r. r.1.1) e in
    let own : w.0 ≡ p = ap (λ r. handle_of r.0) e in rw (← held, ← own)

counts : Counts device
counts = record {
  live = λ q w. count q w.1;
  created = λ n q d d' p e. counted q d d' p e;
  not_created = λ n q d d' e. cc;
  served = λ p q d. refl;
  kept = λ p q d. refl;
  destroyed = λ p q d alive. count-remove p q d.1 alive;
}

-- Pools 0 and 1: the first one is full, the second one serves.
abbrev made : DescriptorAllocator
made = record { full_pools = []; ready_pools = 0 ∷ []; sets_per_pool = 12 }

made-create : create device 8 (0, []) ≡ (some made, (1, 0 ∷ []))
unfolding create
made-create = refl

abbrev grown : DescriptorAllocator
grown = record { full_pools = 0 ∷ []; ready_pools = 1 ∷ []; sets_per_pool = 18 }

made-allocate : (allocate device (made, (1, 0 ∷ []))).1 ≡ (grown, (2, 1 ∷ 0 ∷ []))
unfolding allocate get_pool handle_pool_resize next_sets_per_pool
made-allocate = refl

made-grown : Reach device (made, (1, 0 ∷ [])) (grown, (2, 1 ∷ 0 ∷ []))
made-grown =
    onward (subst (Step device (made, (1, 0 ∷ []))) made-allocate (allocates (made, (1, 0 ∷ []))))
      (here _)

Reach-live_example : count 1 (1 ∷ 0 ∷ []) ≡ count 1 (0 ∷ []) + count 1 (1 ∷ [])
unfolding counts
Reach-live_example =
    Reach-live device counts 8 (0, []) made grown (1, 0 ∷ []) (2, 1 ∷ 0 ∷ []) (λ q. refl)
      made-create made-grown 1

Reach-sets_per_pool_example : 18 ≤ max 12 4092
Reach-sets_per_pool_example =
    (Reach-sets_per_pool device 8 (0, []) made grown (1, 0 ∷ []) (2, 1 ∷ 0 ∷ []) made-create
      made-grown).0
