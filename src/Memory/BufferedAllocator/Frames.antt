-- ===== src/Memory/BufferedAllocator/Frames.antt =====
-- Frames of a client: a swap, and then calls on the buffer in use.
use portal_framework.Base.{
  ℕ, suc, ◌+◌, ◌%◌, ◌<◌, ◌≡◌, ◌≢◌, refl, ap, ◌∙◌, ◌⊎◌, inl, List, [], ◌∷◌, length, ok, err, Result,
  arith,
}
use portal_framework.Memory.StackAllocator
use portal_framework.Memory.BufferedAllocator.{
  BufferedAllocator, swap_buffers, alloc, free, clear, clear_at,
}

pub data Call : Type 0 where
  allocate release clear_index : ℕ → Call
  wipe : Call

abbrev after_alloc : BufferedAllocator → Result (ℕ × BufferedAllocator) → BufferedAllocator
after_alloc b (ok (p, b')) = b'
after_alloc b (err e) = b

abbrev after : BufferedAllocator → Result BufferedAllocator → BufferedAllocator
after b (ok b') = b'
after b (err e) = b

-- A call; one that throws leaves the allocator as it was.
unfoldable pub call : Call → BufferedAllocator → BufferedAllocator
unfolding alloc free clear clear_at
call (allocate n) b = after_alloc b (alloc n b)
call (release p) b = after b (free p b)
call (clear_index i) b = clear_at i b
call wipe b = clear b

unfoldable pub calls : List Call → BufferedAllocator → BufferedAllocator
calls [] b = b
calls (c ∷ cs) b = calls cs (call c b)

-- Frames one after another: each swaps, and then makes its calls.
unfoldable pub frames : ℕ → List (List Call) → BufferedAllocator → BufferedAllocator
frames n [] b = b
frames n (cs ∷ rest) b = frames n rest (calls cs (swap_buffers n b))

call-stack_index : (c : Call) (b : BufferedAllocator) → (call c b).stack_index ≡ b.stack_index
unfolding call
call-stack_index (allocate k) b = ground arith
call-stack_index (release p) b = ground arith
call-stack_index (clear_index i) b = refl
call-stack_index wipe b = refl

call-other :
    (c : Call) (b : BufferedAllocator) (i : ℕ)
    → b.stack_index ≢ i
    → (call c b).allocators i ≡ b.allocators i
unfolding call
call-other (allocate k) b i ne = ground arith
call-other (release p) b i ne = ground arith
call-other (clear_index j) b i ne = ground arith
call-other wipe b i ne = ground arith

calls-stack_index :
    (cs : List Call) (b : BufferedAllocator) → (calls cs b).stack_index ≡ b.stack_index
unfolding calls
calls-stack_index [] b = refl
calls-stack_index (c ∷ cs) b = calls-stack_index cs (call c b) ∙ call-stack_index c b

calls-other :
    (cs : List Call) (b : BufferedAllocator) (i : ℕ)
    → b.stack_index ≢ i
    → (calls cs b).allocators i ≡ b.allocators i
unfolding calls
calls-other [] b i ne = refl
calls-other (c ∷ cs) b i ne =
    calls-other cs (call c b) i (omega (arith, call-stack_index c b)) ∙ call-other c b i ne

-- The index after a swap, with no remainder.
next_index :
    (c n : ℕ) → c < n → (((c + 1) % n ≡ c + 1) × (c + 1 < n)) ⊎ (((c + 1) % n ≡ 0) × (c + 1 ≡ n))
next_index c n h = grind arith

-- `k` swaps away from index `i`, for `k` below `n`.
abbrev Away : ℕ → ℕ → ℕ → ℕ → Type 0
Away n i k c = (c ≡ i + k) ⊎ (c + n ≡ i + k)

next-Away :
    (n i k c : ℕ) → i < n → c < n → suc k < n → Away n i k c → Away n i (suc k) ((c + 1) % n)
next-Away n i k c hi hc hk a = ground (arith, next_index c n hc)

swap-other :
    (n : ℕ) (b : BufferedAllocator) (i : ℕ)
    → (b.stack_index + 1) % n ≢ i
    → (swap_buffers n b).allocators i ≡ b.allocators i
unfolding swap_buffers
swap-other n b i ne = ground arith

swap-stack_index :
    (n : ℕ) (b : BufferedAllocator) → (swap_buffers n b).stack_index ≡ (b.stack_index + 1) % n
unfolding swap_buffers
swap-stack_index n b = refl

swap-current :
    (n : ℕ) (b : BufferedAllocator) (i : ℕ)
    → (b.stack_index + 1) % n ≡ i
    → (swap_buffers n b).allocators i ≡ StackAllocator.clear (b.allocators i)
unfolding swap_buffers
swap-current n b i e = ground arith

frames-Away :
    (n i k : ℕ) (fs : List (List Call)) (b : BufferedAllocator)
    → i < n
    → b.stack_index < n
    → k + length fs < n
    → Away n i k b.stack_index
    → ((frames n fs b).allocators i ≡ b.allocators i)
      × Away n i (k + length fs) (frames n fs b).stack_index
      × ((frames n fs b).stack_index < n)
unfolding frames
frames-Away n i k [] b hi hb hk a = ground arith
frames-Away n i k (cs ∷ fs) b hi hb hk a =
    let s = swap_buffers n b in
    let t = calls cs s in
    let e : t.stack_index ≡ (b.stack_index + 1) % n =
      calls-stack_index cs s ∙ swap-stack_index n b in
    let m : (b.stack_index + 1) % n < n = omega arith in
    let a' = next-Away n i k b.stack_index hi hb (omega arith) a in
    let ne : (b.stack_index + 1) % n ≢ i = ground arith in
    let same : t.allocators i ≡ b.allocators i =
      calls-other cs s i (omega (arith, swap-stack_index n b)) ∙ swap-other n b i ne in
    ground (arith, frames-Away n i (suc k) fs t hi)

-- What a frame has allocated is untouched during the N - 1 frames that follow, whatever calls they
-- make: its buffer is as it left it. N is `n`.
pub frames-keep :
    (n : ℕ) (fs : List (List Call)) (b : BufferedAllocator)
    → b.stack_index < n
    → length fs < n
    → (frames n fs b).allocators b.stack_index ≡ b.allocators b.stack_index
frames-keep n fs b hb hf =
    (frames-Away n b.stack_index 0 fs b hb hb (omega arith) (inl (omega arith))).0

-- The N-th swap comes back to the buffer of the first frame, and clears it. N is `n`.
pub frames-return :
    (n : ℕ) (fs : List (List Call)) (b : BufferedAllocator)
    → b.stack_index < n
    → length fs + 1 ≡ n
    → let t = swap_buffers n (frames n fs b) in
      (t.stack_index ≡ b.stack_index)
      × (t.allocators b.stack_index ≡ StackAllocator.clear (b.allocators b.stack_index))
frames-return n fs b hb hf =
    let i = b.stack_index in
    let last = frames n fs b in
    let (kept, a, lt) = frames-Away n i 0 fs b hb hb (omega arith) (inl (omega arith)) in
    let e : (last.stack_index + 1) % n ≡ i = ground (arith, next_index last.stack_index n lt) in
    (swap-stack_index n last ∙ e, swap-current n last i e ∙ ap StackAllocator.clear kept)
