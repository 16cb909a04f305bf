-- ===== src/Engine/Hierarchy/Join.antt =====
-- `append_child` on forests.
use portal_framework.Base.{
  ℕ, ◌+◌, ◌≡◌, refl, true, false, List, [], ◌∷◌, ◌++◌, Option, none, some, ◌==◌, if◌then◌else◌,
  length, length-append, arith, ok,
}
use portal_framework.Base.Counting.{count}
use portal_framework.Engine.Hierarchy.{ComponentStorage, append_child}
use portal_framework.Engine.Hierarchy.Siblings.{
  is, head, after, before, last, head-append_none, head-append_some, after-append,
  after-append_self, before-append, before-append_self, last-other,
}
use portal_framework.Engine.Hierarchy.Fields.{Fields, component, Stores, same-Stores}
use portal_framework.Engine.Hierarchy.Steps.{linked, linked_first}
use portal_framework.Engine.Hierarchy.Append.{
  IsBare, with_component, behind, joined, append_child-Stores,
}
use portal_framework.Engine.Hierarchy.Forest.{
  Forest, IsForest, fields_of, kids_of, join, Represents,
}
use portal_framework.Engine.Hierarchy.Walk.{kids-FindsLast}
use portal_framework.Engine.Hierarchy.Forest.Shape.{join-IsForest}

-- One entity, whose parent is `o`, when `e` joins the children of `p`.
next_joined :
    (kids : ℕ → List ℕ) (p e j : ℕ) (o : Option ℕ)
    → ((q : ℕ) → count e (kids q) ≡ 0)
    → ((q : ℕ) → count j (kids q) ≡ (if is o q then 1 else 0))
    → (if e == j
        then none
        else linked (last none (kids p)) (some e) (λ i. after i (kids_of kids o)) j)
      ≡ after j (
          kids_of (λ q. if p == q then kids q ++ e ∷ [] else kids q) (if e == j then some p else o))
next_joined kids p e j none h c =
    ground (arith, c p, h p, last-other none j (kids p), after-append_self e (kids p))
next_joined kids p e j (some q) h c = ground (
  arith,
  c p,
  c q,
  h p,
  last-other none j (kids p),
  after-append_self e (kids p),
  after-append none e j (kids q),
)

prev_absent :
    (kids : ℕ → List ℕ) (p e j : ℕ) (l : Option ℕ)
    → last none (kids p) ≡ l
    → count e (kids p) ≡ 0
    → behind l e none j
      ≡ before none j (
          kids_of
            (λ q. if p == q then kids q ++ e ∷ [] else kids q)
            (if e == j then some p else none))
prev_absent kids p e j none m h = ground (arith, before-append_self none e (kids p))
prev_absent kids p e j (some l) m h = ground (arith, before-append_self none e (kids p))

prev_present :
    (kids : ℕ → List ℕ) (p e j q : ℕ) (l : Option ℕ)
    → last none (kids p) ≡ l
    → count e (kids p) ≡ 0
    → count e (kids q) ≡ 0
    → count j (kids q) ≡ 1
    → behind l e (before none j (kids q)) j
      ≡ before none j (
          kids_of
            (λ q. if p == q then kids q ++ e ∷ [] else kids q)
            (if e == j then some p else some q))
prev_present kids p e j q none m h k c =
    ground (arith, before-append_self none e (kids p), before-append none e j (kids q))
prev_present kids p e j q (some l) m h k c =
    ground (arith, before-append_self none e (kids p), before-append none e j (kids q))

prev_joined :
    (kids : ℕ → List ℕ) (p e j : ℕ) (o : Option ℕ)
    → ((q : ℕ) → count e (kids q) ≡ 0)
    → ((q : ℕ) → count j (kids q) ≡ (if is o q then 1 else 0))
    → behind (last none (kids p)) e (before none j (kids_of kids o)) j
      ≡ before none j (
          kids_of (λ q. if p == q then kids q ++ e ∷ [] else kids q) (if e == j then some p else o))
prev_joined kids p e j none h c = prev_absent kids p e j (last none (kids p)) refl (h p)
prev_joined kids p e j (some q) h c =
    prev_present kids p e j q (last none (kids p)) refl (h p) (h q) (ground (arith, c q))

first_joined :
    (kids : ℕ → List ℕ) (p e j : ℕ) (l : Option ℕ)
    → last none (kids p) ≡ l
    → linked_first l p (some e) (λ i. head (kids i)) j
      ≡ head (if p == j then kids j ++ e ∷ [] else kids j)
first_joined kids p e j none h = ground (arith, head-append_none e (kids p))
first_joined kids p e j (some l) h = ground (arith, head-append_some e l (kids p))

children_joined :
    (kids : ℕ → List ℕ) (p e j : ℕ)
    → (if p == j then length (kids j) + 1 else length (kids j))
      ≡ length (if p == j then kids j ++ e ∷ [] else kids j)
children_joined kids p e j = ground (arith, length-append (kids j) (e ∷ []))

-- The fields of the forest when `e` is the last child of `p`.
module _ (t : Forest) (p e : ℕ) (h : t.parent e ≡ none) (w : IsForest t) where
  abbrev adopted : Fields
  adopted = record (fields_of t) { parent = λ j. if e == j then some p else t.parent j }

  absent : (q : ℕ) → count e (t.kids q) ≡ 0
  absent q = ground (arith, w.counts e q, h)

  fields_joined :
      (j : ℕ)
      → component (fields_of (join (some p) e t)) j
        ≡ component (joined p e (last none (t.kids p)) adopted) j
  fields_joined j = rw (
    next_joined t.kids p e j (t.parent j) absent (λ q. w.counts j q),
    prev_joined t.kids p e j (t.parent j) absent (λ q. w.counts j q),
    first_joined t.kids p e j (last none (t.kids p)) refl,
    children_joined t.kids p e j,
  )

  adopted-IsBare : t.has e ≡ true → IsBare adopted
  adopted-IsBare k j b =
      let orphan : t.parent j ≡ none = no_parent (t.parent j) refl b in
      let other : (e == j) ≡ false = ground (arith, k, b) in rw (w.bare j b, other, orphan)
    where
      no_parent : (o : Option ℕ) → t.parent j ≡ o → t.has j ≡ false → o ≡ none
      no_parent none m b = refl
      no_parent (some q) m b = ground (arith, w.members j q m)

module _ (storage : ComponentStorage) where
  pub append_child-Represents :
      (r : storage.Registry) (t : Forest) (p e : ℕ)
      → t.parent e ≡ none
      → t.has e ≡ true
      → t.exists p ≡ true
      → Stores storage r
          (record (fields_of t) { parent = λ j. if e == j then some p else t.parent j })
      → IsForest t
      → (r' : storage.Registry) × (append_child storage p e r ≡ ok r')
        × Represents storage r' (join (some p) e t)
  append_child-Represents r t p e h k x s w =
      let (r', e', s') =
        append_child-Stores storage (adopted t p e h w) p e (last none (t.kids p)) s x k
          (adopted-IsBare t p e h w k)
          (λ r1 s1.
            kids-FindsLast storage t (with_component p (adopted t p e h w)) p s1 w
              (λ j b. ground (arith, b)) (λ j. refl) refl refl) in
      (
        r',
        e',
        (
          same-Stores storage s' (λ j. refl) (λ j. refl) (fields_joined t p e h w),
          join-IsForest p e t h k w,
        ),
      )
