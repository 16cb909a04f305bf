-- ===== src/Engine/Descriptors/Ownership.antt =====
-- The allocator owns the pools of the device: none is lost, none is freed while it is held.
use portal_framework.Base.{
  ℕ, ◌+◌, ◌≡◌, ◌≢◌, refl, ap, subst, ◌∙◌, Bool, true, Option, none, some, List, [], ◌∷◌, arith,
  ◌==◌, if◌then◌else◌,
}
use portal_framework.Base.Counting.{count, count-append}
use portal_framework.Base.Ordered.{reverse}
use portal_framework.Engine.Descriptors.{
  Allocation, allocated, out_of_pool_memory, fragmented_pool, other_error, Device,
  DescriptorAllocator, create, first_pool, made, taken, with_pool, get_pool, serve,
  handle_pool_resize, first_try, allocate, reset_all, destroy_all, clear_pools, destroy_pools,
}

abbrev pub one_if : Bool → ℕ
one_if b = if b then 1 else 0

module _ {D : Type 0} (device : Device D) where
  -- The calls on an allocator.
  pub data Step : DescriptorAllocator × D → DescriptorAllocator × D → Type 0 where
    allocates : (s : DescriptorAllocator × D) → Step s (allocate device s).1
    clears : (s : DescriptorAllocator × D) → Step s (clear_pools device s)
    destroys : (s : DescriptorAllocator × D) → Step s (destroy_pools device s)

  pub data Reach : DescriptorAllocator × D → DescriptorAllocator × D → Type 0 where
    here : (s : DescriptorAllocator × D) → Reach s s
    onward : {s s' s'' : DescriptorAllocator × D} → Step s s' → Reach s' s'' → Reach s s''

-- How many pools of each handle live on the device: `createDescriptorPool` adds one, the destruction of
-- a pool that lives takes it away, and the other calls keep them.
pub record Counts {D : Type 0} (device : Device D) : Type 0 where
  pub live : ℕ → D → ℕ
  pub created :
      (n q : ℕ) (d d' : D) (p : ℕ)
      → device.create_pool n d ≡ (some p, d')
      → live q d' ≡ one_if (q == p) + live q d
  pub not_created :
      (n q : ℕ) (d d' : D) → device.create_pool n d ≡ (none, d') → live q d' ≡ live q d
  pub served : (p q : ℕ) (d : D) → live q (device.allocate_sets p d).1 ≡ live q d
  pub kept : (p q : ℕ) (d : D) → live q (device.reset p d) ≡ live q d
  pub destroyed :
      (p q : ℕ) (d : D) → live p d ≢ 0 → live q d ≡ one_if (q == p) + live q (device.destroy p d)

module _ {D : Type 0} (device : Device D) (counts : Counts device) where
  -- The pools that the allocator holds, and one more in hand, are those that live.
  abbrev pub IsOwner : DescriptorAllocator × D → Type 0
  IsOwner (a, d) = (q : ℕ) → counts.live q d ≡ count q a.full_pools + count q a.ready_pools

  abbrev IsOwnerWith : ℕ → DescriptorAllocator × D → Type 0
  IsOwnerWith p (a, d) =
      (q : ℕ) → counts.live q d ≡ one_if (q == p) + (count q a.full_pools + count q a.ready_pools)

  abbrev OwnsResult : Option ℕ × (DescriptorAllocator × D) → Type 0
  OwnsResult (none, s) = IsOwner s
  OwnsResult (some p, s) = IsOwnerWith p s

  made-owns :
      (s : DescriptorAllocator × D) (n : ℕ) (r : Option ℕ × D)
      → device.create_pool n s.1 ≡ r
      → IsOwner s
      → OwnsResult (made device s r)
  made-owns (a, d) n (none, d') e h = λ q. omega (arith, counts.not_created n q d d' e, h q)
  made-owns (a, d) n (some p, d') e h = λ q. omega (arith, counts.created n q d d' p e, h q)

  taken-owns :
      (s : DescriptorAllocator × D) (pools : List ℕ)
      → s.0.ready_pools ≡ pools
      → IsOwner s
      → OwnsResult (taken device s pools)
  taken-owns (a, d) [] e h = made-owns (a, d) a.sets_per_pool _ refl h
  taken-owns (a, d) (p ∷ ps) e h = λ q.
      (let all : count q a.ready_pools ≡ count q (p ∷ ps) = ap (count q) e in
        omega (arith, h q, all))

  get_pool-owns : (s : DescriptorAllocator × D) → IsOwner s → OwnsResult (get_pool device s)
  unfolding get_pool
  get_pool-owns (a, d) h = taken-owns (a, d) a.ready_pools refl h

  destroy-owns :
      (p : ℕ) (a : DescriptorAllocator) (d : D)
      → IsOwnerWith p (a, d)
      → IsOwner (a, device.destroy p d)
  destroy-owns p a d h q =
      let own : (p == p) ≡ true = ground arith in
      let counted : one_if (p == p) ≡ 1 = rw own in
      let alive : counts.live p d ≢ 0 = λ e. omega (arith, h p, counted) in
      let gone : counts.live q d ≡ one_if (q == p) + counts.live q (device.destroy p d) =
        counts.destroyed p q d alive in
      omega (arith, gone, h q)

  serve-IsOwner :
      (p : ℕ) (s : DescriptorAllocator × D) (r : Allocation)
      → IsOwnerWith p s
      → IsOwner (serve device p s r).1
  serve-IsOwner p (a, d) (allocated set) h = λ q. omega (arith, h q)
  serve-IsOwner p (a, d) out_of_pool_memory h = destroy-owns p a d h
  serve-IsOwner p (a, d) fragmented_pool h = destroy-owns p a d h
  serve-IsOwner p (a, d) other_error h = destroy-owns p a d h

  -- A step that ends with any allocation, from a state that owns its pools.
  with_pool-IsOwner :
      (next : ℕ → DescriptorAllocator × D → Allocation → Option ℕ × (DescriptorAllocator × D))
      (r : Option ℕ × (DescriptorAllocator × D))
      → OwnsResult r
      → ((p : ℕ) (s : DescriptorAllocator × D) (e : Allocation)
          → IsOwnerWith p s
          → IsOwner (next p s e).1)
      → IsOwner (with_pool device next r).1
  with_pool-IsOwner next (none, s) h keeps = h
  with_pool-IsOwner next (some p, (a, d)) h keeps =
      keeps p (a, (device.allocate_sets p d).1) (device.allocate_sets p d).0
        (λ q. counts.served p q d ∙ h q)

  handle_pool_resize-IsOwner :
      (p : ℕ) (s : DescriptorAllocator × D)
      → IsOwnerWith p s
      → IsOwner (handle_pool_resize device p s).1
  unfolding handle_pool_resize
  handle_pool_resize-IsOwner p (a, d) h =
      let s : DescriptorAllocator × D = (record a { full_pools = p ∷ a.full_pools }, d) in
      let owner : IsOwner s = λ q. omega (arith, h q) in
      with_pool-IsOwner (serve device) (get_pool device s) (get_pool-owns s owner) serve-IsOwner

  first_try-IsOwner :
      (p : ℕ) (s : DescriptorAllocator × D) (r : Allocation)
      → IsOwnerWith p s
      → IsOwner (first_try device p s r).1
  first_try-IsOwner p s (allocated set) h = serve-IsOwner p s (allocated set) h
  first_try-IsOwner p s out_of_pool_memory h = handle_pool_resize-IsOwner p s h
  first_try-IsOwner p s fragmented_pool h = handle_pool_resize-IsOwner p s h
  first_try-IsOwner p s other_error h = serve-IsOwner p s other_error h

  allocate-IsOwner : (s : DescriptorAllocator × D) → IsOwner s → IsOwner (allocate device s).1
  unfolding allocate
  allocate-IsOwner s h =
      with_pool-IsOwner (first_try device) (get_pool device s) (get_pool-owns s h) first_try-IsOwner

  reset_all-live :
      (ps : List ℕ) (q : ℕ) (d : D) → counts.live q (reset_all device ps d) ≡ counts.live q d
  reset_all-live [] q d = refl
  reset_all-live (p ∷ ps) q d = reset_all-live ps q (device.reset p d) ∙ counts.kept p q d

  clear_pools-IsOwner : (s : DescriptorAllocator × D) → IsOwner s → IsOwner (clear_pools device s)
  unfolding clear_pools
  clear_pools-IsOwner (a, d) h q =
      let same =
        reset_all-live (reverse a.full_pools) q (reset_all device (reverse a.ready_pools) d)
        ∙ reset_all-live (reverse a.ready_pools) q d in
      omega (arith, same, h q, count-append q a.full_pools a.ready_pools)

  -- The pools of a list that live, with others, are destroyed one by one.
  destroy_all-live :
      (ps others : List ℕ) (d : D)
      → ((q : ℕ) → counts.live q d ≡ count q ps + count q others)
      → (q : ℕ) → counts.live q (destroy_all device ps d) ≡ count q others
  destroy_all-live [] others d h q = omega (arith, h q)
  destroy_all-live (p ∷ ps) others d h q =
      let own : (p == p) ≡ true = ground arith in
      let counted : one_if (p == p) ≡ 1 = rw own in
      let alive : counts.live p d ≢ 0 = λ e. omega (arith, h p, counted) in
      destroy_all-live ps others (device.destroy p d)
        (λ x. omega (arith, counts.destroyed p x d alive, h x)) q

  destroy_pools-IsOwner :
      (s : DescriptorAllocator × D) → IsOwner s → IsOwner (destroy_pools device s)
  unfolding destroy_pools
  destroy_pools-IsOwner (a, d) h q =
      let ready : (x : ℕ)
          → counts.live x (destroy_all device a.ready_pools d) ≡ count x a.full_pools =
        destroy_all-live a.ready_pools a.full_pools d (λ x. omega (arith, h x)) in
      let none_left =
        destroy_all-live a.full_pools [] (destroy_all device a.ready_pools d)
          (λ x. omega (arith, ready x)) q in
      omega (arith, none_left)

  Step-IsOwner : {s s' : DescriptorAllocator × D} → Step device s s' → IsOwner s → IsOwner s'
  Step-IsOwner (allocates s) h = allocate-IsOwner s h
  Step-IsOwner (clears s) h = clear_pools-IsOwner s h
  Step-IsOwner (destroys s) h = destroy_pools-IsOwner s h

  pub Reach-IsOwner : {s s' : DescriptorAllocator × D} → Reach device s s' → IsOwner s → IsOwner s'
  Reach-IsOwner (here s) h = h
  Reach-IsOwner (onward step rest) h = Reach-IsOwner rest (Step-IsOwner step h)

  -- The constructor, on a device without pools.
  abbrev StartsAs : Option DescriptorAllocator × D → Type 0
  StartsAs (none, d) = Unit
  StartsAs (some a, d) = IsOwner (a, d)

  first_pool-StartsAs :
      (n : ℕ) (d : D) (r : Option ℕ × D)
      → ((q : ℕ) → counts.live q d ≡ 0)
      → device.create_pool n d ≡ r
      → StartsAs (first_pool device n r)
  first_pool-StartsAs n d (none, d') h e = tt
  first_pool-StartsAs n d (some p, d') h e = λ q. omega (arith, counts.created n q d d' p e, h q)

-- Whatever sequence of allocations, resets and destructions follows the construction of an allocator on
-- a device without pools, and whichever of the calls of the device fail, the pools that live on the
-- device are those that the allocator holds, each as often: none is leaked, and none that is destroyed
-- is held. The device adds, keeps and destroys pools as its calls say.
pub Reach-live :
    {D : Type 0} (device : Device D) (counts : Counts device) (n : ℕ) (d : D)
    (a a' : DescriptorAllocator) (d' d'' : D)
    → ((q : ℕ) → counts.live q d ≡ 0)
    → create device n d ≡ (some a, d')
    → Reach device (a, d') (a', d'')
    → (q : ℕ) → counts.live q d'' ≡ count q a'.full_pools + count q a'.ready_pools
unfolding create
Reach-live device counts n d a a' d' d'' none_yet e reach =
    let start : IsOwner device counts (a, d') =
      subst (StartsAs device counts) e
        (first_pool-StartsAs device counts n d (device.create_pool n d) none_yet refl) in
    Reach-IsOwner device counts reach start
