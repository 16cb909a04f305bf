-- ===== src/Memory/StackAllocator/Stacked.antt =====
-- The allocator between calls of a client that frees in the order of a stack: the live blocks,
-- newest first, tile the buffer from the bottom up to `top`.
use portal_framework.Base.{ℕ, ◌+◌, ◌≤◌, ◌<◌, ◌≡◌, refl, List, [], ◌∷◌, ◌++◌, some, arith, ok}
use portal_framework.Base.Maps.{lookup, insert, erase, lookup-insert, lookup-erase}
use portal_framework.Memory.StackAllocator.{
  StackAllocator, size_mod, create, alloc, free, get_marker, free_to_marker, clear, resize,
}

-- A pointer and the size of its block.
abbrev pub Block : Type 0
Block = ℕ × ℕ

-- The blocks end at `t`, each where the next one starts, and the map holds the size of each.
-- Entries of the map for blocks that are gone do no harm.
abbrev pub Tiles : ℕ → List Block → List (ℕ × ℕ) → Type 0
Tiles t [] m = t ≡ 0
Tiles t ((p, n) ∷ bs) m = (0 < n) × (t ≡ p + n) × (lookup p m ≡ some n) × Tiles p bs m

pub record IsStacked (s : StackAllocator) (bs : List Block) : Type 0 where
  pub tiles : Tiles s.top bs s.allocations
  pub fits : s.top ≤ s.size
  pub small : s.size < size_mod

-- Where the newest of the blocks ends.
abbrev pub end_of : List Block → ℕ
end_of [] = 0
end_of ((p, n) ∷ bs) = p + n

pub Tiles-end_of : (t : ℕ) (bs : List Block) (m : List (ℕ × ℕ)) → Tiles t bs m → t ≡ end_of bs
Tiles-end_of t [] m h = h
Tiles-end_of t ((p, n) ∷ bs) m h = h.1

-- An entry at or above `k` can be written without harm to blocks that end there or below.
Tiles-insert :
    (k v t : ℕ) (bs : List Block) (m : List (ℕ × ℕ))
    → t ≤ k
    → Tiles t bs m
    → Tiles t bs (insert k v m)
Tiles-insert k v t [] m le h = h
Tiles-insert k v t ((p, n) ∷ bs) m le h =
    ground (arith, lookup-insert k p v m, Tiles-insert k v p bs m)

Tiles-erase :
    (k t : ℕ) (bs : List Block) (m : List (ℕ × ℕ)) → t ≤ k → Tiles t bs m → Tiles t bs (erase k m)
Tiles-erase k t [] m le h = h
Tiles-erase k t ((p, n) ∷ bs) m le h = ground (arith, lookup-erase k p m, Tiles-erase k p bs m)

pub Tiles-suffix :
    (t : ℕ) (newer older : List Block) (m : List (ℕ × ℕ))
    → Tiles t (newer ++ older) m
    → Tiles (end_of older) older m × (end_of older ≤ t)
Tiles-suffix t [] older m h =
    let e : t ≡ end_of older = Tiles-end_of t older m h in rw (← e) (h, omega arith)
Tiles-suffix t ((p, n) ∷ newer) older m h =
    let (a, b) = Tiles-suffix p newer older m h.3 in (a, omega (arith, h.1))

pub create-IsStacked : (n : ℕ) → n < size_mod → IsStacked (create n) []
unfolding create
create-IsStacked n h = record { tiles = refl; fits = omega arith; small = h }

pub clear-IsStacked :
    {s : StackAllocator} (bs : List Block) → IsStacked s bs → IsStacked (clear s) []
unfolding clear
clear-IsStacked bs v = record { tiles = refl; fits = omega arith; small = v.small }

pub resize-IsStacked : (n : ℕ) (s : StackAllocator) → n < size_mod → IsStacked (resize n s) []
unfolding resize
resize-IsStacked n s h = record { tiles = refl; fits = omega arith; small = h }

pub get_marker-eq-end_of :
    {s : StackAllocator} {bs : List Block} → IsStacked s bs → get_marker s ≡ end_of bs
unfolding get_marker
get_marker-eq-end_of {s} {bs} v = Tiles-end_of s.top bs s.allocations v.tiles

-- `alloc` of a positive size that does not wrap appends a block, or leaves no room for it.
pub alloc-IsStacked :
    {s : StackAllocator} {bs : List Block} (n p : ℕ) (s' : StackAllocator)
    → IsStacked s bs
    → 0 < n
    → s.top + n < size_mod
    → alloc n s ≡ ok (p, s')
    → (p ≡ s.top) × IsStacked s' ((p, n) ∷ bs)
unfolding alloc
alloc-IsStacked {s} {bs} n p s' v pos wrap e =
    ground (
      arith,
      lookup-insert s.top s.top n s.allocations,
      Tiles-insert s.top n s.top bs s.allocations,
    )

-- The newest block can be freed, and `top` goes back to where it started.
pub free-IsStacked :
    {s : StackAllocator} {bs : List Block} (n p : ℕ)
    → IsStacked s ((p, n) ∷ bs)
    → (s' : StackAllocator) × (free p s ≡ ok s') × (s'.top ≡ p) × IsStacked s' bs
unfolding free
free-IsStacked {s} {bs} n p v = (
  record s { top = p; allocations = erase p s.allocations },
  ground arith,
  refl,
  record {
    tiles = Tiles-erase p p bs s.allocations (omega arith) v.tiles.3;
    fits = omega (arith, v.tiles.1);
    small = v.small;
  },
)

pub free_to_marker-IsStacked :
    {s : StackAllocator} (newer older : List Block)
    → IsStacked s (newer ++ older)
    → IsStacked (free_to_marker (end_of older) s) older
unfolding free_to_marker
free_to_marker-IsStacked {s} newer older v =
    let (a, b) = Tiles-suffix s.top newer older s.allocations v.tiles in
    record { tiles = a; fits = omega arith; small = v.small }
