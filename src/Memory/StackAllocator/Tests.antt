-- ===== src/Memory/StackAllocator/Tests.antt =====
-- Runs of the bump allocator, and the theorems at concrete inputs.
use portal_framework.Base.{ℕ, ◌+◌, ◌^◌, ◌<◌, ◌≡◌, refl, List, [], ◌∷◌, ok, err, Error, arith, ◌-◌}
use portal_framework.Memory.StackAllocator.{
  StackAllocator, create, alloc, free, free_to_marker, get_marker,
}
use portal_framework.Memory.StackAllocator.Stacked.{IsStacked, Block, create-IsStacked}
use portal_framework.Memory.StackAllocator.History.{
  Reach, Step, Disjoint, EndBelow, Reach-Disjoint, Reach-free-alloc, Reach-free_to_marker,
  Reach-IsStacked,
}
use portal_framework.Memory.StackAllocator.Misuse.{free_first, free_first-overlaps, alloc-wraps}

-- 32 bytes, blocks of 8 and 16 bytes live.
abbrev one : StackAllocator
one = record { size = 32; top = 8; allocations = (0, 8) ∷ [] }

abbrev two : StackAllocator
two = record { size = 32; top = 24; allocations = (0, 8) ∷ (8, 16) ∷ [] }

abbrev two_blocks : List Block
two_blocks = (8, 16) ∷ (0, 8) ∷ []

alloc-two : alloc 16 one ≡ ok (8, two)
unfolding alloc
alloc-two = refl

alloc-full : alloc 9 two ≡ err Error.bad_alloc
unfolding alloc
alloc-full = refl

alloc-one : alloc 8 (create 32) ≡ ok (0, one)
unfolding alloc create
alloc-one = refl

Reach-one : Reach (create 32) [] one ((0, 8) ∷ [])
unfolding create
Reach-one = Reach.next Reach.here (Step.allocates 8 0 one (omega arith) (omega arith) alloc-one)

Reach-two : Reach (create 32) [] two two_blocks
Reach-two = Reach.next Reach-one (Step.allocates 16 8 two (omega arith) (omega arith) alloc-two)

Reach-Disjoint_example : Disjoint two_blocks × EndBelow 32 two_blocks
Reach-Disjoint_example = Reach-Disjoint 32 (omega arith) Reach-two

Reach-free-alloc_example :
    (s' : StackAllocator) × (free 8 two ≡ ok s')
    × ((s'' : StackAllocator) × (alloc 16 s' ≡ ok (8, s'')))
Reach-free-alloc_example = Reach-free-alloc 32 8 16 (omega arith) Reach-two

Reach-free_to_marker_example :
    let t = free_to_marker (get_marker one) two in (t.top ≡ 8) × IsStacked t ((0, 8) ∷ [])
Reach-free_to_marker_example =
    Reach-free_to_marker ((0, 8) ∷ []) ((8, 16) ∷ [])
      (Reach-IsStacked (create-IsStacked 32 (omega arith)) Reach-one)
      (Reach.next Reach.here (Step.allocates 16 8 two (omega arith) (omega arith) alloc-two))

free_first-overlaps_example :
    (q : ℕ) × ((r : ℕ) × (free_first 8 16 4 (create 32) ≡ ok (q, r)) × (q < r + 4) × (r < q + 16))
unfolding create
free_first-overlaps_example =
    free_first-overlaps 8 16 4 (create 32) (omega arith) (omega arith) (omega arith) (omega arith)
      (omega arith)

alloc-wraps_example : (s' : StackAllocator) × (alloc (2 ^ 64 - 1) one ≡ ok (8, s')) × (s'.top < 8)
alloc-wraps_example =
    alloc-wraps (2 ^ 64 - 1) one (omega arith) (omega arith) (omega arith) (omega arith)
