-- ===== src/Jobs/WorkerQueue/Contents.antt =====
-- What a worker's six queues hold together, counted by handle.
use portal_framework.Base.{ℕ, ◌+◌, ◌≡◌, true, List, [], ◌++◌, length, length-append, arith}
use portal_framework.Base.Counting.{count, count-append}
use portal_framework.Jobs.ConcurrentQueue.{ConcurrentQueue, SameItems}
use portal_framework.Jobs.WorkerQueue.{
  JobPriority, low, normal, high, get, put, WorkerQueue, QueueSet,
}

module _ (cq : ConcurrentQueue) where
  open cq use {Queue, items}

  -- How often a handle is in the three queues of a set, and how many handles are in them.
  abbrev pub set_count : ℕ → QueueSet cq → ℕ
  set_count a s = count a (items s.at_low) + count a (items s.at_normal) + count a (items s.at_high)

  abbrev pub set_total : QueueSet cq → ℕ
  set_total s = length (items s.at_low) + length (items s.at_normal) + length (items s.at_high)

  abbrev pub held : ℕ → WorkerQueue cq → ℕ
  held a w = set_count a w.local_set + set_count a w.stealable_set

  abbrev pub total : WorkerQueue cq → ℕ
  total w = set_total w.local_set + set_total w.stealable_set

  -- A queue of the set is replaced by one that has lost `out`.
  pub put_less :
      (p : JobPriority) (s : QueueSet cq) (q : Queue) (out : List ℕ)
      → SameItems (out ++ items q) (items (get p s))
      → ((a : ℕ) → count a out + set_count a (put p q s) ≡ set_count a s)
        × (length out + set_total (put p q s) ≡ set_total s)
  put_less low s q out h = (
    (λ a. omega (arith, h.counts a, count-append a out (items q))),
    omega (arith, h.lengths, length-append out (items q)),
  )
  put_less normal s q out h = (
    (λ a. omega (arith, h.counts a, count-append a out (items q))),
    omega (arith, h.lengths, length-append out (items q)),
  )
  put_less high s q out h = (
    (λ a. omega (arith, h.counts a, count-append a out (items q))),
    omega (arith, h.lengths, length-append out (items q)),
  )

  -- One that has gained `new`.
  pub put_more :
      (p : JobPriority) (s : QueueSet cq) (q : Queue) (new : List ℕ)
      → SameItems (items q) (new ++ items (get p s))
      → ((a : ℕ) → set_count a (put p q s) ≡ count a new + set_count a s)
        × (set_total (put p q s) ≡ length new + set_total s)
  put_more low s q new h = (
    (λ a. omega (arith, h.counts a, count-append a new (items s.at_low))),
    omega (arith, h.lengths, length-append new (items s.at_low)),
  )
  put_more normal s q new h = (
    (λ a. omega (arith, h.counts a, count-append a new (items s.at_normal))),
    omega (arith, h.lengths, length-append new (items s.at_normal)),
  )
  put_more high s q new h = (
    (λ a. omega (arith, h.counts a, count-append a new (items s.at_high))),
    omega (arith, h.lengths, length-append new (items s.at_high)),
  )

  -- Memory for the queues never runs out.
  abbrev pub AlwaysEnqueues : Type 0
  AlwaysEnqueues =
      ((x : ℕ) (q : Queue) → (cq.enqueue x q).0 ≡ true)
      × ((xs : List ℕ) (q : Queue) → (cq.enqueue_bulk xs q).0 ≡ true)

  -- `out` has left the queues, and nothing else has changed.
  pub record Releases (w : WorkerQueue cq) (out : List ℕ) (w' : WorkerQueue cq) : Type 0 where
    pub counts : (a : ℕ) → count a out + held a w' ≡ held a w
    pub lengths : length out + total w' ≡ total w

  pub Releases-refl : (w : WorkerQueue cq) → Releases w [] w
  Releases-refl w = record { counts = λ a. omega arith; lengths = omega arith }

  pub Releases-trans :
      {w w' w'' : WorkerQueue cq} {out out' : List ℕ}
      → Releases w out w'
      → Releases w' out' w''
      → Releases w (out ++ out') w''
  Releases-trans {w} {w'} {w''} {out} {out'} r r' = record {
    counts = λ a. omega (arith, r.counts a, r'.counts a, count-append a out out');
    lengths = omega (arith, r.lengths, r'.lengths, length-append out out');
  }
