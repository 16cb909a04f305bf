-- ===== src/Engine/Descriptors.antt =====
-- engine/portal/engine/renderer/descriptor_allocator.cpp: pools of descriptor sets. The Vulkan device
-- is a parameter with a state of its own; a pool is its handle, which is destroyed with the object
-- that owns it. The sizes of a pool for each type of descriptor are left to the device.
pub mod Ownership
pub mod Sizes
mod Tests
use portal_framework.Base.{
  ℕ, ◌+◌, ◌/◌, ◌≡◌, Bool, true, false, Option, none, some, List, [], ◌∷◌, ◌++◌, ltb, ◌==◌,
  if◌then◌else◌,
}
use portal_framework.Base.Ordered.{reverse}

-- What `allocateDescriptorSets` gives, for one set: a set, or one of the exceptions.
pub data Allocation : Type 0 where
  allocated : ℕ → Allocation
  out_of_pool_memory fragmented_pool other_error : Allocation

-- The calls of the device, `none` where a call throws.
pub record Device (D : Type 0) : Type 0 where
  pub create_pool : ℕ → D → Option ℕ × D
  pub allocate_sets : ℕ → D → Allocation × D
  pub reset : ℕ → D → D
  pub destroy : ℕ → D → D

-- The pools with the last one of each vector first.
pub record DescriptorAllocator : Type 0 where
  pub full_pools : List ℕ
  pub ready_pools : List ℕ
  pub sets_per_pool : ℕ

abbrev pub max_sets_per_pool : ℕ
max_sets_per_pool = 4092

-- `static_cast<uint32_t>(sets * 1.5)`, for numbers whose product is below 2^32: the cast of a larger one
-- is undefined.
abbrev pub half_more : ℕ → ℕ
half_more sets = sets + sets / 2

unfoldable pub next_sets_per_pool : ℕ → ℕ
next_sets_per_pool sets =
    if ltb max_sets_per_pool (half_more sets) then max_sets_per_pool else half_more sets

module _ {D : Type 0} (device : Device D) where
  abbrev pub first_pool : ℕ → Option ℕ × D → Option DescriptorAllocator × D
  first_pool max_sets (none, d) = (none, d)
  first_pool max_sets (some pool, d) = (
    some (record { full_pools = []; ready_pools = pool ∷ []; sets_per_pool = half_more max_sets }),
    d,
  )

  -- The constructor, `none` if it throws.
  unfoldable pub create : ℕ → D → Option DescriptorAllocator × D
  create max_sets d = first_pool max_sets (device.create_pool max_sets d)

  -- Calls that change the allocator and the device.
  abbrev pub State : Type 0
  State = DescriptorAllocator × D

  abbrev pub made : State → Option ℕ × D → Option ℕ × State
  made (a, d) (none, d') = (none, (a, d'))
  made (a, d) (some pool, d') =
      (some pool, (record a { sets_per_pool = next_sets_per_pool a.sets_per_pool }, d'))

  abbrev pub taken : State → List ℕ → Option ℕ × State
  taken (a, d) [] = made (a, d) (device.create_pool a.sets_per_pool d)
  taken (a, d) (pool ∷ pools) = (some pool, (record a { ready_pools = pools }, d))

  unfoldable pub get_pool : State → Option ℕ × State
  get_pool (a, d) = taken (a, d) a.ready_pools

  -- The pool that served the allocation is ready again; an exception destroys the local pool.
  abbrev pub serve : ℕ → State → Allocation → Option ℕ × State
  serve pool (a, d) (allocated set) =
      (some set, (record a { ready_pools = pool ∷ a.ready_pools }, d))
  serve pool (a, d) e = (none, (a, device.destroy pool d))

  -- `allocateDescriptorSets`, from a pool that `get_pool` gave.
  abbrev pub with_pool :
      (ℕ → State → Allocation → Option ℕ × State) → Option ℕ × State → Option ℕ × State
  with_pool next (none, s) = (none, s)
  with_pool next (some pool, (a, d)) =
      let r : Allocation × D = device.allocate_sets pool d in next pool (a, r.1) r.0

  -- `handle_pool_resize`, and the end of `allocate` behind it.
  unfoldable pub handle_pool_resize : ℕ → State → Option ℕ × State
  handle_pool_resize pool (a, d) =
      with_pool serve (get_pool (record a { full_pools = pool ∷ a.full_pools }, d))

  abbrev pub first_try : ℕ → State → Allocation → Option ℕ × State
  first_try pool s out_of_pool_memory = handle_pool_resize pool s
  first_try pool s fragmented_pool = handle_pool_resize pool s
  first_try pool s r = serve pool s r

  unfoldable pub allocate : State → Option ℕ × State
  allocate s = with_pool first_try (get_pool s)

  -- The loops over pools.
  abbrev pub reset_all : List ℕ → D → D
  reset_all [] d = d
  reset_all (p ∷ ps) d = reset_all ps (device.reset p d)

  abbrev pub destroy_all : List ℕ → D → D
  destroy_all [] d = d
  destroy_all (p ∷ ps) d = destroy_all ps (device.destroy p d)

  -- The loops run from the front of each vector, and push at the back.
  unfoldable pub clear_pools : State → State
  clear_pools (a, d) =
      let d' : D = reset_all (reverse a.full_pools) (reset_all (reverse a.ready_pools) d) in
      (record a { ready_pools = a.full_pools ++ a.ready_pools; full_pools = [] }, d')

  unfoldable pub destroy_pools : State → State
  destroy_pools (a, d) = (
    record a { ready_pools = []; full_pools = [] },
    destroy_all a.full_pools (destroy_all a.ready_pools d),
  )
