-- ===== src/Engine/Descriptors/Sizes.antt =====
-- How many sets the pools have that the allocator makes.
use portal_framework.Base.{ℕ, ◌≤◌, max, ◌≡◌, sym, ap, Option, none, some, List, [], ◌∷◌, arith}
use portal_framework.Engine.Descriptors.Ownership.{
  Step, allocates, clears, destroys, Reach, here, onward,
}
use portal_framework.Engine.Descriptors.{
  Allocation, allocated, out_of_pool_memory, fragmented_pool, other_error, Device,
  DescriptorAllocator, create, half_more, next_sets_per_pool, max_sets_per_pool, first_pool, made,
  taken, with_pool, get_pool, serve, handle_pool_resize, first_try, allocate, clear_pools,
  destroy_pools,
}

-- A limit for the sizes that growth keeps.
abbrev IsKept : (ℕ → Type 0) → Type 0
IsKept P = (n : ℕ) → P n → P (next_sets_per_pool n)

module _ {D : Type 0} (device : Device D) (P : ℕ → Type 0) (keeps : IsKept P) where
  abbrev State : Type 0
  State = DescriptorAllocator × D

  abbrev IsSized : State → Type 0
  IsSized (a, d) = P a.sets_per_pool

  made-IsSized : (s : State) (r : Option ℕ × D) → IsSized s → IsSized (made device s r).1
  made-IsSized (a, d) (none, d') h = h
  made-IsSized (a, d) (some p, d') h = keeps a.sets_per_pool h

  taken-IsSized : (s : State) (pools : List ℕ) → IsSized s → IsSized (taken device s pools).1
  taken-IsSized (a, d) [] h = made-IsSized (a, d) (device.create_pool a.sets_per_pool d) h
  taken-IsSized (a, d) (p ∷ ps) h = h

  get_pool-IsSized : (s : State) → IsSized s → IsSized (get_pool device s).1
  unfolding get_pool
  get_pool-IsSized (a, d) h = taken-IsSized (a, d) a.ready_pools h

  serve-IsSized : (p : ℕ) (s : State) (r : Allocation) → IsSized s → IsSized (serve device p s r).1
  serve-IsSized p (a, d) (allocated set) h = h
  serve-IsSized p (a, d) out_of_pool_memory h = h
  serve-IsSized p (a, d) fragmented_pool h = h
  serve-IsSized p (a, d) other_error h = h

  with_pool-IsSized :
      (next : ℕ → State → Allocation → Option ℕ × State) (r : Option ℕ × State)
      → IsSized r.1
      → ((p : ℕ) (s : State) (e : Allocation) → IsSized s → IsSized (next p s e).1)
      → IsSized (with_pool device next r).1
  with_pool-IsSized next (none, s) h step = h
  with_pool-IsSized next (some p, (a, d)) h step =
      step p (a, (device.allocate_sets p d).1) (device.allocate_sets p d).0 h

  handle_pool_resize-IsSized :
      (p : ℕ) (s : State) → IsSized s → IsSized (handle_pool_resize device p s).1
  unfolding handle_pool_resize
  handle_pool_resize-IsSized p (a, d) h =
      let s : State = (record a { full_pools = p ∷ a.full_pools }, d) in
      with_pool-IsSized (serve device) (get_pool device s) (get_pool-IsSized s h) serve-IsSized

  first_try-IsSized :
      (p : ℕ) (s : State) (r : Allocation) → IsSized s → IsSized (first_try device p s r).1
  first_try-IsSized p s (allocated set) h = serve-IsSized p s (allocated set) h
  first_try-IsSized p s out_of_pool_memory h = handle_pool_resize-IsSized p s h
  first_try-IsSized p s fragmented_pool h = handle_pool_resize-IsSized p s h
  first_try-IsSized p s other_error h = serve-IsSized p s other_error h

  allocate-IsSized : (s : State) → IsSized s → IsSized (allocate device s).1
  unfolding allocate
  allocate-IsSized s h =
      with_pool-IsSized (first_try device) (get_pool device s) (get_pool-IsSized s h)
        first_try-IsSized

  Step-IsSized : {s s' : State} → Step device s s' → IsSized s → IsSized s'
  unfolding clear_pools destroy_pools
  Step-IsSized (allocates s) h = allocate-IsSized s h
  Step-IsSized (clears (a, d)) h = h
  Step-IsSized (destroys (a, d)) h = h

  Reach-IsSized : {s s' : State} → Reach device s s' → IsSized s → IsSized s'
  Reach-IsSized (here s) h = h
  Reach-IsSized (onward step rest) h = Reach-IsSized rest (Step-IsSized step h)

next_sets_per_pool-IsKept : (n : ℕ) → IsKept (λ m. m ≤ max (half_more n) max_sets_per_pool)
unfolding next_sets_per_pool
next_sets_per_pool-IsKept n m h = ground arith

one-IsKept : (n : ℕ) → n ≤ 1 → IsKept (λ m. m ≡ n)
unfolding next_sets_per_pool
one-IsKept n le m h = ground arith

abbrev sets_of : Option DescriptorAllocator → ℕ
sets_of none = 0
sets_of (some a) = a.sets_per_pool

first_pool-half_more :
    {D : Type 0} (device : Device D) (n : ℕ) (r : Option ℕ × D) (a : DescriptorAllocator) (d : D)
    → first_pool device n r ≡ (some a, d)
    → a.sets_per_pool ≡ half_more n
first_pool-half_more device n (none, d') a d e = cc
first_pool-half_more device n (some p, d') a d e = sym (ap (λ r. sets_of r.0) e)

-- The number of sets of the next pool never exceeds the larger of 4092 and one and a half times the
-- number that the constructor was given; and if that number is at most one, it stays as it is: such an
-- allocator makes pools of one set for ever.
pub Reach-sets_per_pool :
    {D : Type 0} (device : Device D) (n : ℕ) (d : D) (a a' : DescriptorAllocator) (d' d'' : D)
    → create device n d ≡ (some a, d')
    → Reach device (a, d') (a', d'')
    → (a'.sets_per_pool ≤ max (half_more n) max_sets_per_pool) × (n ≤ 1 → a'.sets_per_pool ≡ n)
unfolding create
Reach-sets_per_pool device n d a a' d' d'' e reach =
    let first : a.sets_per_pool ≡ half_more n =
      first_pool-half_more device n (device.create_pool n d) a d' e in
    (
      Reach-IsSized device (λ m. m ≤ max (half_more n) max_sets_per_pool)
          (next_sets_per_pool-IsKept n) reach (omega (arith, first)),
      λ le. Reach-IsSized device (λ m. m ≡ n) (one-IsKept n le) reach (omega (arith, first)),
    )
