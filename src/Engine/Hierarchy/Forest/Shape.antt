-- ===== src/Engine/Hierarchy/Forest/Shape.antt =====
-- A forest stays a forest.
use portal_framework.Base.{ℕ, ◌≡◌, true, [], ◌∷◌, none, some, arith}
use portal_framework.Base.Counting.{count-append, count-remove}
use portal_framework.Engine.Hierarchy.Forest.{Forest, IsForest, touch, leave, join}

pub touch-IsForest : (e : ℕ) (t : Forest) → IsForest t → IsForest (touch e t)
touch-IsForest e t w = record {
  counts = w.counts;
  members = λ i p h. (ground (arith, w.members i p h), ground (arith, w.members i p h));
  bare = λ p h. w.bare p (ground arith);
}

pub leave-IsForest :
    (p e : ℕ) (t : Forest) → t.parent e ≡ some p → IsForest t → IsForest (leave (some p) e t)
leave-IsForest p e t h w = record {
  counts = λ i q. ground (arith, w.counts i q, w.counts e q, count-remove e i (t.kids q));
  members = λ i q k. w.members i q (ground arith);
  bare = λ q k. ground (arith, w.bare q k);
}

pub join-IsForest :
    (p e : ℕ) (t : Forest)
    → t.parent e ≡ none
    → t.has e ≡ true
    → IsForest t
    → IsForest (join (some p) e t)
join-IsForest p e t h k w = record {
  counts = λ i q. ground (arith, w.counts i q, count-append i (t.kids q) (e ∷ []));
  members = λ i q l. (ground (arith, w.members i q), ground (arith, w.members i q));
  bare = λ q l. ground (arith, w.bare q);
}
