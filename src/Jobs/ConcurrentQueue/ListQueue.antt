-- ===== src/Jobs/ConcurrentQueue/ListQueue.antt =====
-- A list, first in first out, meets the interface.
use portal_framework.Base.{
  ℕ, zero, suc, ◌≤◌, ◌<◌, ◌≡◌, refl, List, [], ◌∷◌, ◌++◌, true, Option, none, some, length, take,
  drop, take-append-drop, length-append, arith,
}
use portal_framework.Base.Counting.{count-append}
use portal_framework.Jobs.ConcurrentQueue.{SameItems, ConcurrentQueue, taken_items}

abbrev pub dequeue_front : List ℕ → Option ℕ × List ℕ
dequeue_front [] = (none, [])
dequeue_front (x ∷ xs) = (some x, xs)

pub SameItems-refl : (xs : List ℕ) → SameItems xs xs
SameItems-refl xs = record { counts = λ a. refl; lengths = refl }

pub SameItems-swap : (xs ys : List ℕ) → SameItems (ys ++ xs) (xs ++ ys)
SameItems-swap xs ys = record {
  counts = λ a. omega (arith, count-append a xs ys, count-append a ys xs);
  lengths = omega (arith, length-append xs ys, length-append ys xs);
}

pub dequeue_front-items :
    (q : List ℕ) → SameItems (taken_items (dequeue_front q).0 ++ (dequeue_front q).1) q
dequeue_front-items [] = SameItems-refl []
dequeue_front-items (x ∷ xs) = SameItems-refl (x ∷ xs)

pub dequeue_front-none : (q : List ℕ) → (dequeue_front q).0 ≡ none → q ≡ []
dequeue_front-none [] e = refl
dequeue_front-none (x ∷ xs) e = cc

pub take-items : (n : ℕ) (q : List ℕ) → SameItems (take n q ++ drop n q) q
take-items n q = rw (take-append-drop n q) (SameItems-refl q)

pub length-take-le : (n : ℕ) (q : List ℕ) → length (take n q) ≤ n
length-take-le zero q = omega arith
length-take-le (suc n) [] = omega arith
length-take-le (suc n) (x ∷ q) = omega (arith, length-take-le n q)

pub take-nil : (n : ℕ) (q : List ℕ) → 0 < n → take n q ≡ [] → q ≡ []
take-nil zero q h e = elim h [ ]
take-nil (suc n) [] h e = refl
take-nil (suc n) (x ∷ q) h e = cc

abbrev pub list_queue : ConcurrentQueue
list_queue = record {
  Queue = List ℕ;
  empty = [];
  items = λ q. q;
  enqueue = λ x q. (true, q ++ x ∷ []);
  enqueue_bulk = λ xs q. (true, q ++ xs);
  try_dequeue = dequeue_front;
  try_dequeue_bulk = λ n q. (take n q, drop n q);
  items-empty = refl;
  items-enqueue = λ x q. SameItems-swap (x ∷ []) q;
  items-enqueue_bulk = λ xs q. SameItems-swap xs q;
  items-try_dequeue = dequeue_front-items;
  items-try_dequeue_bulk = take-items;
  try_dequeue_bulk-le = length-take-le;
  try_dequeue-none = dequeue_front-none;
  try_dequeue_bulk-nil = take-nil;
}
