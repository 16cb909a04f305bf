-- ===== src/Jobs/ConcurrentQueue.antt =====
-- What the job system relies on of `moodycamel::ConcurrentQueue`, a library that it calls: an
-- interface with the behaviour that the library documents for calls that do not overlap. A handle is
-- a number (its address).
pub mod ListQueue
use portal_framework.Base.{
  ℕ, ◌+◌, ◌≤◌, ◌<◌, ◌≡◌, List, [], ◌∷◌, ◌++◌, Bool, Option, none, some, length, if◌then◌else◌,
}
use portal_framework.Base.Counting.{count}

-- The handles that a successful or a failed dequeue hands out.
abbrev pub taken_items : Option ℕ → List ℕ
taken_items none = []
taken_items (some x) = x ∷ []

-- The same handles, each as often.
pub record SameItems (xs ys : List ℕ) : Type 0 where
  pub counts : (a : ℕ) → count a xs ≡ count a ys
  pub lengths : length xs ≡ length ys

pub record ConcurrentQueue : Type 1 where
  pub Queue : Type 0
  pub empty : Queue
  -- What is in the queue, in no promised order.
  pub items : Queue → List ℕ
  -- The flag is what the call returns: an enqueue fails only when memory runs out, and then changes
  -- nothing.
  pub enqueue : ℕ → Queue → Bool × Queue
  pub enqueue_bulk : List ℕ → Queue → Bool × Queue
  pub try_dequeue : Queue → Option ℕ × Queue
  pub try_dequeue_bulk : ℕ → Queue → List ℕ × Queue
  pub items-empty : items empty ≡ []
  pub items-enqueue :
      (x : ℕ) (q : Queue)
      → let (done, q') = enqueue x q in SameItems (items q') (if done then x ∷ items q else items q)
  pub items-enqueue_bulk :
      (xs : List ℕ) (q : Queue)
      → let (done, q') = enqueue_bulk xs q in
        SameItems (items q') (if done then xs ++ items q else items q)
  pub items-try_dequeue :
      (q : Queue)
      → let (out, q') = try_dequeue q in SameItems (taken_items out ++ items q') (items q)
  pub items-try_dequeue_bulk :
      (n : ℕ) (q : Queue)
      → let (out, q') = try_dequeue_bulk n q in SameItems (out ++ items q') (items q)
  pub try_dequeue_bulk-le : (n : ℕ) (q : Queue) → length (try_dequeue_bulk n q).0 ≤ n
  -- Nothing is found only where nothing is.
  pub try_dequeue-none : (q : Queue) → (try_dequeue q).0 ≡ none → items q ≡ []
  pub try_dequeue_bulk-nil :
      (n : ℕ) (q : Queue) → 0 < n → (try_dequeue_bulk n q).0 ≡ [] → items q ≡ []
