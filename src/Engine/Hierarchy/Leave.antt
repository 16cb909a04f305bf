-- ===== src/Engine/Hierarchy/Leave.antt =====
-- `remove_child` on forests.
use portal_framework.Base.{
  ℕ, ◌-◌, ◌≡◌, ◌≢◌, refl, subst, true, List, Option, none, some, ◌==◌, if◌then◌else◌, length, arith,
  ok,
}
use portal_framework.Base.Counting.{count, remove, length-remove}
use portal_framework.Engine.Hierarchy.{ComponentStorage, remove_child}
use portal_framework.Engine.Hierarchy.Siblings.{
  is, head, after, before, after-remove, head-remove, before-remove, after-other, before-other,
}
use portal_framework.Engine.Hierarchy.Fields.{
  component, find-Stores, get_component-Stores, same-Stores,
}
use portal_framework.Engine.Hierarchy.Steps.{linked, linked_first}
use portal_framework.Engine.Hierarchy.Unlink.{left, unlink_child-Stores}
use portal_framework.Engine.Hierarchy.Forest.{
  Forest, IsForest, fields_of, kids_of, leave, Represents,
}
use portal_framework.Engine.Hierarchy.Walk.{kid_has}
use portal_framework.Engine.Hierarchy.Forest.Shape.{leave-IsForest}

-- One entity, whose parent is `o`, when the child `e` of `p` leaves.
next_left :
    (kids : ℕ → List ℕ) (p e j : ℕ) (o : Option ℕ)
    → ((q : ℕ) → count j (kids q) ≡ (if is o q then 1 else 0))
    → (if e == j
        then none
        else linked (before none e (kids p)) (after e (kids p)) (λ i. after i (kids_of kids o)) j)
      ≡ after j
          (kids_of (λ q. if p == q then remove e (kids q) else kids q) (if e == j then none else o))
next_left kids p e j none c = ground (arith, c p, before-other none e j (kids p))
next_left kids p e j (some q) c =
    ground (arith, c p, c q, before-other none e j (kids p), after-remove none e j (kids q))

prev_left :
    (kids : ℕ → List ℕ) (p e j : ℕ) (o : Option ℕ)
    → count e (kids p) ≡ 1
    → ((q : ℕ) → count j (kids q) ≡ (if is o q then 1 else 0))
    → (if e == j
        then none
        else linked
            (after e (kids p))
            (before none e (kids p))
            (λ i. before none i (kids_of kids o))
            j)
      ≡ before none j
          (kids_of (λ q. if p == q then remove e (kids q) else kids q) (if e == j then none else o))
prev_left kids p e j none once c = ground (arith, c p, after-other e j (kids p))
prev_left kids p e j (some q) once c =
    ground (arith, c p, c q, after-other e j (kids p), before-remove none e j (kids q))

first_left :
    (kids : ℕ → List ℕ) (p e j : ℕ)
    → count e (kids p) ≡ 1
    → linked_first (before none e (kids p)) p (after e (kids p)) (λ i. head (kids i)) j
      ≡ head (if p == j then remove e (kids j) else kids j)
first_left kids p e j once = ground (arith, head-remove e (kids p))

children_left :
    (kids : ℕ → List ℕ) (p e j : ℕ)
    → count e (kids p) ≡ 1
    → (if p == j then length (kids j) - 1 else length (kids j))
      ≡ length (if p == j then remove e (kids j) else kids j)
children_left kids p e j once = ground (arith, length-remove e (kids p))

-- The neighbours of an entity are in the list.
before_in : (e i : ℕ) (xs : List ℕ) → before none e xs ≡ some i → count i xs ≢ 0
before_in e i xs h z = ground (arith, before-other none e i xs)

after_in : (e i : ℕ) (xs : List ℕ) → after e xs ≡ some i → count i xs ≢ 0
after_in e i xs h z = ground (arith, after-other e i xs)

-- The fields when a child has left are those of the forest without it.
module _ (t : Forest) (p e : ℕ) (h : t.parent e ≡ some p) (w : IsForest t) where
  once : count e (t.kids p) ≡ 1
  once = ground (arith, w.counts e p, h)

  fields_left :
      (j : ℕ) → component (fields_of (leave (some p) e t)) j ≡ component (left p e (fields_of t)) j
  fields_left j = rw (
    h,
    next_left t.kids p e j (t.parent j) (λ q. w.counts j q),
    prev_left t.kids p e j (t.parent j) once (λ q. w.counts j q),
    first_left t.kids p e j once,
    children_left t.kids p e j once,
  )

module _ (storage : ComponentStorage) where
  pub remove_child-Represents :
      (r : storage.Registry) (t : Forest) (p e : ℕ)
      → t.parent e ≡ some p
      → Represents storage r t
      → (r' : storage.Registry) × (remove_child storage p e r ≡ ok (true, r'))
        × Represents storage r' (leave (some p) e t)
  unfolding remove_child
  remove_child-Represents r t p e h (s, w) =
      let (he, hp) = w.members e p h in
      let (r', e', s') =
        unlink_child-Stores storage (fields_of t) p e s hp he
          (λ i k.
            kid_has t w p i (
              before_in e i (t.kids p)
                (subst (λ o. before none e (kids_of t.kids o) ≡ some i) h k)))
          (λ i k.
            kid_has t w p i
              (after_in e i (t.kids p) (subst (λ o. after e (kids_of t.kids o) ≡ some i) h k))) in
      let is_child : is (t.parent e) p ≡ true = ground (arith, h) in
      (
        r',
        rw (
          find-Stores storage p s hp,
          get_component-Stores storage e s he,
          is_child,
          e',
          remove_child,
        ),
        (
          same-Stores storage s' (λ j. refl) (λ j. refl) (fields_left t p e h w),
          leave-IsForest p e t h w,
        ),
      )
