-- ===== src/Memory/PoolAllocator/Ownership.antt =====
-- What a client may rely on: who owns a slot, when an allocation fails, and which slot it gets.
use portal_framework.Base.{
  ℕ, ◌≤◌, ◌<◌, ◌≡◌, ◌≢◌, ◌⊎◌, inl, inr, List, [], ◌∷◌, Option, some, Result, ok, err, Error, arith,
  length,
}
use portal_framework.Base.Counting.{count}
use portal_framework.Memory.PoolAllocator.{Pool, zeroed, create, alloc, free}
use portal_framework.Memory.PoolAllocator.FreeList.{slots, count-slots-le}
use portal_framework.Memory.PoolAllocator.History.{
  IsPool, Reach, clear-IsPool, Reach-IsPool, alloc-cons, alloc-nil, free-IsPool,
}

module _ (b c : ℕ) (pos : 0 < b) (pos' : 0 < c) where
  Reach-create-IsPool :
      (s : Pool) (held : List ℕ)
      → Reach b c (create b c) [] s held
      → (ps : List ℕ) × IsPool b c s ps held
  unfolding create
  Reach-create-IsPool s held r =
      Reach-IsPool b c (create b c) [] (slots b c 0) pos r (clear-IsPool b c zeroed pos pos')

  -- After any history of allocations, frees of slots that are held, frees of the null pointer, and
  -- writes into slots that are held, from a new pool with slots: the client holds no slot twice, and
  -- only slots of the pool.
  pub Reach-count-le :
      (s : Pool) (held : List ℕ) (a : ℕ)
      → Reach b c (create b c) [] s held
      → (count a held ≤ 1) × (count a held ≤ count a (slots b c 0))
  Reach-count-le s held a r =
      let (ps, v) = Reach-create-IsPool s held r in
      (omega (arith, v.partition a, count-slots-le b c 0 a pos), omega (arith, v.partition a))

  -- What a call of `alloc` comes to where the slots `held` are held.
  abbrev pub Outcome : List ℕ → Result (ℕ × Pool) → Type 0
  Outcome held r =
      ((length held ≡ c) × (r ≡ err Error.bad_alloc))
      ⊎ ((length held < c)
          × ((p : ℕ) × ((t : Pool) × (r ≡ ok (p, t))
                × (count p held ≡ 0)
                × (count p (slots b c 0) ≡ 1))))

  alloc_cases :
      (s : Pool) (ps held : List ℕ) (word : Option ℕ)
      → IsPool b c s ps held
      → Outcome held (alloc b c word s)
  alloc_cases s [] held word v = inl (omega (arith, v.total), alloc-nil b c word s held v)
  alloc_cases s (p ∷ ps) held word v =
      let once : (count p held ≡ 0) × (count p (slots b c 0) ≡ 1) =
        ground (arith, v.partition p, count-slots-le b c 0 p pos) in
      inr (omega (arith, v.total), (p, (_, alloc-cons b c word s p ps held v, once.0, once.1)))

  -- After any history of allocations, frees of slots that are held, frees of the null pointer, and
  -- writes into slots that are held, from a new pool with slots: either all `c` slots are held and
  -- `alloc` throws, or fewer are held and it gives a slot of the pool that is not held.
  pub Reach-alloc :
      (s : Pool) (held : List ℕ) (word : Option ℕ)
      → Reach b c (create b c) [] s held
      → Outcome held (alloc b c word s)
  Reach-alloc s held word r =
      let (ps, v) = Reach-create-IsPool s held r in alloc_cases s ps held word v

  -- After any history of allocations, frees of slots that are held, frees of the null pointer, and
  -- writes into slots that are held, from a new pool with slots: the slot that is freed last is the
  -- one that is allocated next, also when the pool was exhausted.
  pub Reach-alloc-free :
      (s : Pool) (held : List ℕ) (word : Option ℕ) (p : ℕ)
      → Reach b c (create b c) [] s held
      → count p held ≢ 0
      → (t : Pool) × (alloc b c word (free (some p) s) ≡ ok (p, t))
  Reach-alloc-free s held word p r h =
      let (ps, v) = Reach-create-IsPool s held r in
      (_, alloc-cons b c word (free (some p) s) p ps _ (free-IsPool b c s p ps held pos v h))
