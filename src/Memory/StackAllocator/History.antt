-- ===== src/Memory/StackAllocator/History.antt =====
-- Histories of calls by a client that frees in the order of a stack, with the blocks that the
-- client holds.
use portal_framework.Base.{ℕ, ◌+◌, ◌%◌, ◌≤◌, ◌<◌, ◌≡◌, refl, List, [], ◌∷◌, ◌++◌, arith, ok, subst}
use portal_framework.Base.Maps.{insert}
use portal_framework.Memory.StackAllocator.{
  StackAllocator, size_mod, create, alloc, free, free_to_marker, get_marker, clear, resize,
}
use portal_framework.Memory.StackAllocator.Stacked.{
  Block, Tiles, IsStacked, end_of, create-IsStacked, clear-IsStacked, resize-IsStacked,
  alloc-IsStacked, free-IsStacked, free_to_marker-IsStacked, Tiles-end_of,
}

-- One call, and the live blocks before and after it.
pub data Step (s : StackAllocator) (bs : List Block) : StackAllocator → List Block → Type 0 where
  allocates :
      (n p : ℕ) (s' : StackAllocator)
      → 0 < n
      → s.top + n < size_mod
      → alloc n s ≡ ok (p, s')
      → Step s bs s' ((p, n) ∷ bs)
  frees :
      (p n : ℕ) (older : List Block) (s' : StackAllocator)
      → bs ≡ (p, n) ∷ older
      → free p s ≡ ok s'
      → Step s bs s' older
  rewinds :
      (newer older : List Block)
      → bs ≡ newer ++ older
      → Step s bs (free_to_marker (end_of older) s) older
  clears : Step s bs (clear s) []
  resizes : (n : ℕ) → n < size_mod → Step s bs (resize n s) []

pub data Reach (s : StackAllocator) (bs : List Block) : StackAllocator → List Block → Type 0 where
  here : Reach s bs s bs
  next :
      {s' s'' : StackAllocator} {bs' bs'' : List Block}
      → Reach s bs s' bs'
      → Step s' bs' s'' bs''
      → Reach s bs s'' bs''

size-free : (p : ℕ) (s s' : StackAllocator) → free p s ≡ ok s' → s'.size ≡ s.size
unfolding free
size-free p s s' e = ground arith

alloc-fits :
    (n p : ℕ) (s : StackAllocator)
    → s.top ≡ p
    → p + n ≤ s.size
    → s.size < size_mod
    → (s' : StackAllocator) × (alloc n s ≡ ok (p, s'))
unfolding alloc
alloc-fits n p s e fits small = (
  record s { allocations = insert s.top n s.allocations; top = (s.top + n) % size_mod },
  ground arith,
)

free_newest :
    {s : StackAllocator} (p n : ℕ) (bs older : List Block) (s' : StackAllocator)
    → IsStacked s bs
    → bs ≡ (p, n) ∷ older
    → free p s ≡ ok s'
    → IsStacked s' older
free_newest {s} p n bs older s' v e f =
    let v' : IsStacked s ((p, n) ∷ older) = subst (IsStacked s) e v in
    let (t, g, _, w) = free-IsStacked n p v' in
    let same : t ≡ s' = cc in subst (λ u. IsStacked u older) same w

Step-IsStacked :
    {s s' : StackAllocator} {bs bs' : List Block}
    → Step s bs s' bs'
    → IsStacked s bs
    → IsStacked s' bs'
Step-IsStacked (allocates n p s' pos wrap e) v = (alloc-IsStacked n p s' v pos wrap e).1
Step-IsStacked {bs = bs} (frees p n older s' e f) v = free_newest p n bs older s' v e f
Step-IsStacked {s = s} (rewinds newer older e) v =
    free_to_marker-IsStacked newer older (subst (IsStacked s) e v)
Step-IsStacked {bs = bs} clears v = clear-IsStacked bs v
Step-IsStacked {s = s} (resizes n h) v = resize-IsStacked n s h

pub Reach-IsStacked :
    {s : StackAllocator} {bs : List Block} {s' : StackAllocator} {bs' : List Block}
    → IsStacked s bs
    → Reach s bs s' bs'
    → IsStacked s' bs'
Reach-IsStacked v here = v
Reach-IsStacked v (next r st) = Step-IsStacked st (Reach-IsStacked v r)

-- Every block of the list ends at `t` or below.
abbrev pub EndBelow : ℕ → List Block → Type 0
EndBelow t [] = Unit {0}
EndBelow t ((p, n) ∷ bs) = (p + n ≤ t) × EndBelow t bs

-- No two blocks of the list have a byte in common.
abbrev pub Disjoint : List Block → Type 0
Disjoint [] = Unit {0}
Disjoint ((p, n) ∷ bs) = EndBelow p bs × Disjoint bs

EndBelow-mono : (t u : ℕ) (bs : List Block) → t ≤ u → EndBelow t bs → EndBelow u bs
EndBelow-mono t u [] le h = tt
EndBelow-mono t u ((p, n) ∷ bs) le h = (omega arith, EndBelow-mono t u bs le h.1)

Tiles-EndBelow : (t : ℕ) (bs : List Block) (m : List (ℕ × ℕ)) → Tiles t bs m → EndBelow t bs
Tiles-EndBelow t [] m h = tt
Tiles-EndBelow t ((p, n) ∷ bs) m h =
    (omega (arith, h.1), EndBelow-mono p t bs (omega (arith, h.1)) (Tiles-EndBelow p bs m h.3))

Tiles-Disjoint : (t : ℕ) (bs : List Block) (m : List (ℕ × ℕ)) → Tiles t bs m → Disjoint bs
Tiles-Disjoint t [] m h = tt
Tiles-Disjoint t ((p, n) ∷ bs) m h = (Tiles-EndBelow p bs m h.3, Tiles-Disjoint p bs m h.3)

-- After any history of calls from a new allocator of `cap` bytes (`cap` below 2 ^ 64), in which the
-- client allocates positive sizes that do not wrap `top`, frees only its newest block, and rewinds
-- only to markers between its blocks, the live blocks are pairwise disjoint and end inside the
-- buffer.
pub Reach-Disjoint :
    (cap : ℕ) {s : StackAllocator} {bs : List Block}
    → cap < size_mod
    → Reach (create cap) [] s bs
    → Disjoint bs × EndBelow s.size bs
Reach-Disjoint cap {s} {bs} h r =
    let v = Reach-IsStacked (create-IsStacked cap h) r in
    (
      Tiles-Disjoint s.top bs s.allocations v.tiles,
      EndBelow-mono s.top s.size bs v.fits (Tiles-EndBelow s.top bs s.allocations v.tiles),
    )

-- After any history of calls from a new allocator of `cap` bytes (`cap` below 2 ^ 64), in which the
-- client allocates positive sizes that do not wrap `top`, frees only its newest block, and rewinds
-- only to markers between its blocks, the newest block can be freed: the call succeeds, and an
-- allocation of the same size then succeeds at the same place.
pub Reach-free-alloc :
    (cap : ℕ) {s : StackAllocator} {bs : List Block} (p n : ℕ)
    → cap < size_mod
    → Reach (create cap) [] s ((p, n) ∷ bs)
    → (s' : StackAllocator) × (free p s ≡ ok s')
      × ((s'' : StackAllocator) × (alloc n s' ≡ ok (p, s'')))
Reach-free-alloc cap {s} {bs} p n h r =
    let v = Reach-IsStacked (create-IsStacked cap h) r in
    let (s', e, t, w) = free-IsStacked n p v in
    let same : s'.size ≡ s.size = size-free p s s' e in
    let start : s.top ≡ p + n = v.tiles.1 in
    let room : p + n ≤ s'.size = omega (arith, v.fits) in
    let small : s'.size < size_mod = w.small in (s', e, alloc-fits n p s' t room small)

-- A marker taken between calls brings the blocks of that moment back: if the client still holds
-- them when it rewinds to the marker, then `top` is as it was, and the live blocks are those.
pub Reach-free_to_marker :
    {s s' : StackAllocator} (bs newer : List Block)
    → IsStacked s bs
    → Reach s bs s' (newer ++ bs)
    → let t = free_to_marker (get_marker s) s' in (t.top ≡ s.top) × IsStacked t bs
unfolding free_to_marker get_marker
Reach-free_to_marker {s} {s'} bs newer v r =
    let e : s.top ≡ end_of bs = Tiles-end_of s.top bs s.allocations v.tiles in
    (refl, rw e (free_to_marker-IsStacked newer bs (Reach-IsStacked v r)))
