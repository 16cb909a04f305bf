-- ===== src/Memory/StackAllocator/Misuse.antt =====
-- Calls that the documentation does not rule out, and after which blocks overlap.
use portal_framework.Base.{ℕ, ◌+◌, ◌-◌, ◌%◌, ◌≤◌, ◌<◌, ◌≡◌, List, some, arith, ok, ◌>>=◌, Result}
use portal_framework.Base.Maps.{lookup, insert, erase, lookup-insert}
use portal_framework.Memory.StackAllocator.{StackAllocator, size_mod, alloc, free}

-- Allocates a block of `n` bytes and one of `k`, frees the first, and allocates `j` bytes: the
-- places of the second and the third block.
pub free_first : ℕ → ℕ → ℕ → StackAllocator → Result (ℕ × ℕ)
free_first n k j s = do
  (p, s1) ← alloc n s
  (q, s2) ← alloc k s1
  s3 ← free p s2
  (r, s4) ← alloc j s3
  ok (q, r)

abbrev allocated : ℕ → StackAllocator → StackAllocator
allocated n s = record s { allocations = insert s.top n s.allocations; top = s.top + n }

alloc-eq :
    (n : ℕ) (s : StackAllocator)
    → s.top + n ≤ s.size
    → s.size < size_mod
    → alloc n s ≡ ok (s.top, allocated n s)
unfolding alloc
alloc-eq n s room small = ground arith

abbrev freed : ℕ → ℕ → StackAllocator → StackAllocator
freed p n s = record s { allocations = erase p s.allocations; top = s.top - n }

free-eq :
    (p n : ℕ) (s : StackAllocator)
    → lookup p s.allocations ≡ some n
    → n ≤ s.top
    → s.top < size_mod
    → free p s ≡ ok (freed p n s)
unfolding free
free-eq p n s held le small = ground arith

first_held :
    (p n k : ℕ) (m : List (ℕ × ℕ)) → 0 < n → lookup p (insert (p + n) k (insert p n m)) ≡ some n
first_held p n k m pos =
    ground (arith, lookup-insert (p + n) p k (insert p n m), lookup-insert p p n m)

-- Freeing a block that is not the newest moves `top` into the live block above it. On a client that
-- allocates `n` and `k` bytes, frees the first block and allocates `j` bytes, where `n` is less
-- than `k + j` and the buffer has room for all three, every call succeeds, and the last block
-- overlaps the second, which is still live.
pub free_first-overlaps :
    (n k j : ℕ) (s : StackAllocator)
    → 0 < n
    → 0 < k
    → n < k + j
    → s.top + n + k + j ≤ s.size
    → s.size < size_mod
    → (q : ℕ) × ((r : ℕ) × (free_first n k j s ≡ ok (q, r)) × (q < r + j) × (r < q + k))
unfolding free_first
free_first-overlaps n k j s pos pos' long room small =
    let s2 = allocated k (allocated n s) in
    let s3 = freed s.top n s2 in
    let held : lookup s.top s2.allocations ≡ some n = first_held s.top n k s.allocations pos in
    let e1 = alloc-eq n s (omega arith) small in
    let e2 = alloc-eq k (allocated n s) (omega arith) small in
    let e3 = free-eq s.top n s2 held (omega arith) (omega arith) in
    let e4 = alloc-eq j s3 (omega arith) small in
    let back : s3.top ≡ s.top + k = omega arith in
    (s.top + n, (s3.top, rw (e1, e2, e3, e4), omega (arith, back), omega (arith, back)))

-- The room test adds in `size_t`: a size with which `top` wraps round passes it, although it is
-- larger than the whole buffer, and `top` moves down.
pub alloc-wraps :
    (n : ℕ) (s : StackAllocator)
    → s.top ≤ s.size
    → s.size < n
    → n < size_mod
    → size_mod ≤ s.top + n
    → (s' : StackAllocator) × (alloc n s ≡ ok (s.top, s')) × (s'.top < s.top)
unfolding alloc
alloc-wraps n s fits large small wraps = (
  record s { allocations = insert s.top n s.allocations; top = (s.top + n) % size_mod },
  ground arith,
  omega arith,
)
