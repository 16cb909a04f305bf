-- ===== src/Memory/PoolAllocator/History.antt =====
-- Histories of a client of the pool, with the slots that it holds. A slot that is held belongs to
-- the client, which may write any word into it.
use portal_framework.Base.{
  ℕ, zero, suc, ◌+◌, ◌*◌, ◌<◌, ◌≡◌, ◌≢◌, refl, List, [], ◌∷◌, Bool, true, false, Option, none, some,
  ok, err, Error, arith, length, sym, subst, ◌∙◌,
}
use portal_framework.Base.Counting.{count, remove, count-remove, length-remove}
use portal_framework.Memory.PoolAllocator.{Pool, store, pool_size, clear, take_slot, alloc, free}
use portal_framework.Memory.PoolAllocator.FreeList.{
  Linked, Linked-store, slots, slots-lt, length-slots, count-slots-le, link_slots-Linked,
}

abbrev pub is_empty : List ℕ → Bool
is_empty [] = true
is_empty (p ∷ ps) = false

ok≢err {ℓ} : {A : Type ℓ} {a : A} {e : Error} → ¬ (ok a ≡ err e)
ok≢err h = cc

module _ (b c : ℕ) where
  flag_clear : (n : ℕ) → 0 < n → false ≡ is_empty (slots b n 0)
  flag_clear zero h = absurd (omega arith)
  flag_clear (suc n) h = refl

  -- The free slots are linked, `full` tells that there are none, and every slot is either free or
  -- held, and that once.
  pub record IsPool (s : Pool) (free_slots held : List ℕ) : Type 0 where
    pub linked : Linked (pool_size b c) s.cell s.head free_slots
    pub flag : s.full ≡ is_empty free_slots
    pub total : length free_slots + length held ≡ c
    pub partition : (a : ℕ) → count a free_slots + count a held ≡ count a (slots b c 0)

  pub data Step (s : Pool) (held : List ℕ) : Pool → List ℕ → Type 0 where
    allocates :
        (word : Option ℕ) (p : ℕ) (s' : Pool)
        → alloc b c word s ≡ ok (p, s')
        → Step s held s' (p ∷ held)
    frees : (p : ℕ) → count p held ≢ 0 → Step s held (free (some p) s) (remove p held)
    frees_null : Step s held (free none s) held
    writes :
        (p : ℕ) (v : Option ℕ)
        → count p held ≢ 0
        → Step s held (record s { cell = store p v s.cell }) held

  pub data Reach (s : Pool) (held : List ℕ) : Pool → List ℕ → Type 0 where
    here : Reach s held s held
    next :
        {t : Pool} {ps : List ℕ} {u : Pool} {qs : List ℕ}
        → Reach s held t ps
        → Step t ps u qs
        → Reach s held u qs

  pub clear-IsPool : (s : Pool) → 0 < b → 0 < c → IsPool (clear b c s) (slots b c 0) []
  unfolding clear
  clear-IsPool s pos pos' = record {
    linked = link_slots-Linked b c c 0 s.cell pos (omega arith);
    flag = flag_clear c pos';
    total = omega (arith, length-slots b c 0);
    partition = λ a. omega arith;
  }

  pub take_slot-cons :
      (s : Pool) (p : ℕ) (ps held : List ℕ)
      → IsPool s (p ∷ ps) held
      → take_slot b c s ≡ ok (p, record s { head = s.cell p; full = is_empty ps })
  unfolding take_slot
  take_slot-cons s p [] held v = ground arith
  take_slot-cons s p (q ∷ qs) held v = ground arith

  pub take_slot-nil :
      (s : Pool) (held : List ℕ) → IsPool s [] held → take_slot b c s ≡ err Error.bad_alloc
  unfolding take_slot
  take_slot-nil s held v = ground arith

  -- `alloc` with a slot free: it gives the first free slot away.
  abbrev given : Option ℕ → ℕ → List ℕ → Pool → Pool
  given word p ps s = record { cell = store p word s.cell; head = s.cell p; full = is_empty ps }

  pub alloc-cons :
      (word : Option ℕ) (s : Pool) (p : ℕ) (ps held : List ℕ)
      → IsPool s (p ∷ ps) held
      → alloc b c word s ≡ ok (p, given word p ps s)
  unfolding alloc
  alloc-cons word s p ps held v = rw (take_slot-cons s p ps held v, alloc)

  -- The pool with its first free slot taken, before anything is written there.
  abbrev pub taken : ℕ → List ℕ → Pool → Pool
  taken p ps s = record s { head = s.cell p; full = is_empty ps }

  pub taken-IsPool :
      (s : Pool) (p : ℕ) (ps held : List ℕ)
      → IsPool s (p ∷ ps) held
      → IsPool (taken p ps s) ps (p ∷ held)
  taken-IsPool s p ps held v = record {
    linked = v.linked.2;
    flag = refl;
    total = omega (arith, v.total);
    partition = λ a. ground (arith, v.partition a);
  }

  pub given-IsPool :
      (word : Option ℕ) (s : Pool) (p : ℕ) (ps held : List ℕ)
      → 0 < b
      → IsPool s (p ∷ ps) held
      → IsPool (given word p ps s) ps (p ∷ held)
  given-IsPool word s p ps held pos v = record {
    linked =
        Linked-store (pool_size b c) p word s.cell (s.cell p) ps
          (ground (arith, v.partition p, count-slots-le b c 0 p)) v.linked.2;
    flag = refl;
    total = omega (arith, v.total);
    partition = λ a. ground (arith, v.partition a);
  }

  pub free-IsPool :
      (s : Pool) (p : ℕ) (ps held : List ℕ)
      → 0 < b
      → IsPool s ps held
      → count p held ≢ 0
      → IsPool (free (some p) s) (p ∷ ps) (remove p held)
  unfolding free
  free-IsPool s p ps held pos v h =
      let is_slot : count p (slots b c 0) ≢ 0 = omega (arith, v.partition p) in
      let inside : p < 0 + c * b = slots-lt b c 0 p pos is_slot in
      let not_free : count p ps ≡ 0 = omega (arith, v.partition p, count-slots-le b c 0 p pos) in
      record {
        linked = (
          refl,
          (λ e. omega arith),
          rw store_self (Linked-store (pool_size b c) p s.head s.cell s.head ps not_free v.linked),
        );
        flag = refl;
        total = omega (arith, v.total, length-remove p held h);
        partition = λ a. ground (arith, v.partition a, count-remove p a held h);
      }
    where
      store_self : store p s.head s.cell p ≡ s.head
      store_self = ground arith

  pub writes-IsPool :
      (s : Pool) (p : ℕ) (w : Option ℕ) (ps held : List ℕ)
      → 0 < b
      → IsPool s ps held
      → count p held ≢ 0
      → IsPool (record s { cell = store p w s.cell }) ps held
  writes-IsPool s p w ps held pos v h =
      let not_free : count p ps ≡ 0 = omega (arith, v.partition p, count-slots-le b c 0 p pos) in
      record {
        linked = Linked-store (pool_size b c) p w s.cell s.head ps not_free v.linked;
        flag = v.flag;
        total = v.total;
        partition = v.partition;
      }

  pub alloc-nil :
      (word : Option ℕ) (s : Pool) (held : List ℕ)
      → IsPool s [] held
      → alloc b c word s ≡ err Error.bad_alloc
  unfolding alloc
  alloc-nil word s held v = rw (take_slot-nil s held v, alloc)

  free_null : {s : Pool} {ps held : List ℕ} → IsPool s ps held → IsPool (free none s) ps held
  unfolding free
  free_null v = v

  alloc-IsPool :
      (word : Option ℕ) (s : Pool) (p : ℕ) (s' : Pool) (ps held : List ℕ)
      → 0 < b
      → IsPool s ps held
      → alloc b c word s ≡ ok (p, s')
      → (qs : List ℕ) × IsPool s' qs (p ∷ held)
  alloc-IsPool word s p s' [] held pos v e = absurd (ok≢err (sym e ∙ alloc-nil word s held v))
  alloc-IsPool word s p s' (q ∷ qs) held pos v e =
      let g = alloc-cons word s q qs held v in
      let same : p ≡ q = cc in
      let same' : given word q qs s ≡ s' = cc in
      (
        qs,
        rw same (subst (λ t. IsPool t qs (q ∷ held)) same' (given-IsPool word s q qs held pos v)),
      )

  Step-IsPool :
      (s : Pool) (held : List ℕ) {s' : Pool} {held' : List ℕ} (ps : List ℕ)
      → 0 < b
      → Step s held s' held'
      → IsPool s ps held
      → (qs : List ℕ) × IsPool s' qs held'
  Step-IsPool s held ps pos (allocates word p s' e) v = alloc-IsPool word s p s' ps held pos v e
  Step-IsPool s held ps pos (frees p h) v = (p ∷ ps, free-IsPool s p ps held pos v h)
  Step-IsPool s held ps pos frees_null v = (ps, free_null v)
  Step-IsPool s held ps pos (writes p w h) v = (ps, writes-IsPool s p w ps held pos v h)

  pub Reach-IsPool :
      (s : Pool) (held : List ℕ) {s' : Pool} {held' : List ℕ} (ps : List ℕ)
      → 0 < b
      → Reach s held s' held'
      → IsPool s ps held
      → (qs : List ℕ) × IsPool s' qs held'
  Reach-IsPool s held ps pos here v = (ps, v)
  Reach-IsPool s held ps pos (next {t = t} {ps = hs} r st) v =
      let (qs, w) = Reach-IsPool s held ps pos r v in Step-IsPool t hs qs pos st w
