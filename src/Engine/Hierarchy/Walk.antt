-- ===== src/Engine/Hierarchy/Walk.antt =====
-- The children of an entity in their order: what `children()` visits.
use portal_framework.Base.{
  ℕ, zero, suc, ◌-◌, ◌≡◌, ◌≢◌, ◌≤◌, ◌<◌, refl, sym, ap, subst, ◌∙◌, true, not, List, [], ◌∷◌,
  Option, none, some, ◌==◌, if◌then◌else◌, length, arith, ok,
}
use portal_framework.Base.Counting.{count}
use portal_framework.Engine.Hierarchy.{ComponentStorage, walk, children, has_children, last_child}
use portal_framework.Engine.Hierarchy.Siblings.{is, head, after, last}
use portal_framework.Engine.Hierarchy.Fields.{Fields, Stores, find-Stores, get_component-Stores}
use portal_framework.Engine.Hierarchy.Append.{Follows, FindsLast, last_child-Stores}
use portal_framework.Engine.Hierarchy.Forest.{Forest, IsForest, fields_of, kids_of, Represents}

pub kid_has : (t : Forest) → IsForest t → (p i : ℕ) → count i (t.kids p) ≢ 0 → t.has i ≡ true
kid_has t w p i h = ground (arith, w.counts i p, w.members i p)

-- Entities that are linked as a list has them follow each other.
after-Follows :
    (f : Fields) (x : ℕ) (xs : List ℕ)
    → ((j : ℕ) → count j (x ∷ xs) ≤ 1)
    → ((j : ℕ) → count j (x ∷ xs) ≢ 0 → (f.has j ≡ true) × (f.next j ≡ after j (x ∷ xs)))
    → Follows f x xs
after-Follows f x [] u h = let (k, n) = h x (ground arith) in (k, n ∙ ground arith)
after-Follows f x (y ∷ ys) u h =
    let (k, n) = h x (ground arith) in
    (
      k,
      n ∙ ground arith,
      after-Follows f y ys (λ j. ground (arith, u j))
          (λ j c. let (k, n) = h j (ground (arith, c)) in (k, n ∙ ground (arith, u x, u j, c))),
    )

not_less : (n : ℕ) → ¬ (n < 0)
not_less n h = omega arith

pub kid_parent :
    (t : Forest) → IsForest t → (p j : ℕ) → count j (t.kids p) ≢ 0 → t.parent j ≡ some p
kid_parent t w p j h = parent_of (t.parent j) (w.counts j p)
  where
    parent_of : (o : Option ℕ) → count j (t.kids p) ≡ (if is o p then 1 else 0) → o ≡ some p
    parent_of none c = absurd (h c)
    parent_of (some q) c = ap some (ground arith)

kid_next :
    (t : Forest)
    → IsForest t
    → (p j : ℕ) → count j (t.kids p) ≢ 0
    → (fields_of t).next j ≡ after j (t.kids p)
kid_next t w p j h = ap (λ o. after j (kids_of t.kids o)) (kid_parent t w p j h)

-- The fields `f` link entities as those of the forest.
pub kids-Follows :
    (t : Forest) (f : Fields) (p x : ℕ) (xs : List ℕ)
    → IsForest t
    → t.kids p ≡ x ∷ xs
    → ((j : ℕ) → t.has j ≡ true → f.has j ≡ true)
    → ((j : ℕ) → f.next j ≡ (fields_of t).next j)
    → Follows f x xs
kids-Follows t f p x xs w k h n =
    after-Follows f x xs (λ j. subst (λ l. count j l ≤ 1) k (ground (arith, w.counts j p)))
      (λ j c.
        let c' = subst (λ l. count j l ≢ 0) (sym k) c in
        (h j (kid_has t w p j c'), n j ∙ kid_next t w p j c' ∙ ap (after j) k))

module _ (storage : ComponentStorage) where
  Follows-FindsLast :
      {r : storage.Registry} (f : Fields) (p : ℕ) (xs : List ℕ)
      → Stores storage r f
      → f.children p ≡ length xs
      → f.first p ≡ head xs
      → ((x : ℕ) (ys : List ℕ) → xs ≡ x ∷ ys → Follows f x ys)
      → FindsLast storage r f p (last none xs)
  Follows-FindsLast f p [] s c h k = c
  Follows-FindsLast {r} f p (x ∷ xs) s c h k =
      let (y, e, l, m) = last_child-Stores storage x xs s (k x xs refl) in
      let less : length xs ≡ f.children p - 1 = omega (arith, c) in
      subst (FindsLast storage r f p) (sym l)
        (x, ground (arith, c), h, subst (λ n. last_child storage n x r ≡ ok y) less e, m)

  pub kids-FindsLast :
      {r : storage.Registry} (t : Forest) (f : Fields) (p : ℕ)
      → Stores storage r f
      → IsForest t
      → ((j : ℕ) → t.has j ≡ true → f.has j ≡ true)
      → ((j : ℕ) → f.next j ≡ (fields_of t).next j)
      → f.children p ≡ length (t.kids p)
      → f.first p ≡ head (t.kids p)
      → FindsLast storage r f p (last none (t.kids p))
  kids-FindsLast t f p s w h n c d =
      Follows-FindsLast f p (t.kids p) s c d (λ x xs e. kids-Follows t f p x xs w e h n)

  walk-Stores :
      {r : storage.Registry} (f : Fields) (x : ℕ) (xs : List ℕ) (fuel : ℕ)
      → Stores storage r f
      → Follows f x xs
      → length xs < fuel
      → walk storage fuel (some x) r ≡ ok (x ∷ xs)
  unfolding walk
  walk-Stores f x xs zero s h more = elim (not_less (length xs) more) [ ]
  walk-Stores f x [] (suc fuel) s (h, n) more = rw (get_component-Stores storage x s h, n)
  walk-Stores f x (y ∷ ys) (suc fuel) s (h, n, k) more =
      rw (get_component-Stores storage x s h, n, walk-Stores f y ys fuel s k (omega arith))

  walk-first :
      {r : storage.Registry} (f : Fields) (p : ℕ) (xs : List ℕ) (fuel : ℕ)
      → Stores storage r f
      → f.has p ≡ true
      → f.first p ≡ head xs
      → ((x : ℕ) (ys : List ℕ) → xs ≡ x ∷ ys → Follows f x ys)
      → length xs ≤ fuel
      → children storage fuel p r ≡ ok xs
  unfolding children walk
  walk-first f p [] fuel s h first k more = rw (get_component-Stores storage p s h, first)
  walk-first f p (x ∷ xs) fuel s h first k more =
      rw (get_component-Stores storage p s h, first, walk-Stores f x xs fuel s (k x xs refl) more)

  -- Where the registry holds a forest and an entity has a component, the loop over `children()` visits
  -- the children of the entity in the order of the forest, if it may visit as many, and then ends;
  -- `has_children` tells whether there are any.
  pub children-kids :
      (r : storage.Registry) (t : Forest) (p fuel : ℕ)
      → Represents storage r t
      → t.has p ≡ true
      → length (t.kids p) ≤ fuel
      → (children storage fuel p r ≡ ok (t.kids p))
        × (has_children storage p r ≡ not (length (t.kids p) == 0))
  unfolding has_children
  children-kids r t p fuel (s, w) h more = (
    walk-first (fields_of t) p (t.kids p) fuel s h refl
        (λ x xs e. kids-Follows t (fields_of t) p x xs w e (λ j k. k) (λ j. refl)) more,
    rw (find-Stores storage p s h, has_children),
  )
