-- ===== src/Engine/Hierarchy/Steps.antt =====
-- The assignments of `remove_child` and `set_parent`, field by field.
use portal_framework.Base.{
  ℕ, ◌≡◌, refl, sym, ap, ◌∙◌, Bool, true, false, Option, none, some, ◌==◌, if◌then◌else◌, ok, arith,
  Bool-cases, inl, inr,
}
use portal_framework.Engine.Hierarchy.Siblings.{is}
use portal_framework.Engine.Hierarchy.{
  RelationshipComponent, ComponentStorage, modify, link_next, link_prev,
}
use portal_framework.Engine.Hierarchy.Fields.{
  Fields, component, Differs, Stores, modify-Stores, same_choice,
}

differs :
    (f g : Fields) (e : ℕ) (change : RelationshipComponent → RelationshipComponent)
    → f.has e ≡ true
    → ((j : ℕ) → g.exists j ≡ f.exists j)
    → ((j : ℕ) → g.has j ≡ f.has j)
    → ((j : ℕ) → component g j ≡ (if e == j then change (component f j) else component f j))
    → Differs f g e (change (component f e))
differs f g e change h x s c = record {
  same_exists = x;
  same_has = λ j. s j ∙ sym (same_choice f.has e j) ∙ ap (λ b. if e == j then b else f.has j) h;
  changed = λ j. c j ∙ moved j;
}
  where
    moved :
        (j : ℕ)
        → (if e == j then change (component f j) else component f j)
          ≡ (if e == j then change (component f e) else component f j)
    moved j = elim (Bool-cases (e == j)) [
      | inl t ↦ ap (λ i. if e == j then change (component f i) else component f j) (ground arith)
      | inr t ↦
          ap (λ b. if b then change (component f j) else component f j) t
          ∙ sym (ap (λ b. if b then change (component f e) else component f j) t)
    ]

-- The fields that `link_next` and `link_prev` leave.
abbrev pub linked : Option ℕ → Option ℕ → (ℕ → Option ℕ) → ℕ → Option ℕ
linked q v f j = if is q j then v else f j

abbrev pub linked_first : Option ℕ → ℕ → Option ℕ → (ℕ → Option ℕ) → ℕ → Option ℕ
linked_first none p v f j = if p == j then v else f j
linked_first (some q) p v f j = f j

abbrev pub with_next : Option ℕ → ℕ → Option ℕ → Fields → Fields
with_next q p v f = record f { first = linked_first q p v f.first; next = linked q v f.next }

abbrev pub with_prev : Option ℕ → Option ℕ → Fields → Fields
with_prev q v f = record f { prev = linked q v f.prev }

module _ (storage : ComponentStorage) where
  -- What a modification of one component leaves.
  abbrev pub Modified :
      storage.Registry → ℕ → (RelationshipComponent → RelationshipComponent) → Fields → Type 0
  Modified r e change g =
      (r' : storage.Registry) × (modify storage e change r ≡ ok r') × Stores storage r' g

  module _ {r : storage.Registry} {f : Fields} (e : ℕ) (s : Stores storage r f)
      (h : f.has e ≡ true) where
    pub set_first :
        (v : Option ℕ)
        → Modified r e
            (λ c. record c { first = v })
            (record f { first = λ j. if e == j then v else f.first j })
    set_first v = modify-Stores storage _ e _ s h (
        differs f _ e (λ c. record c { first = v }) h (λ j. refl) (λ j. refl)
          (λ j. branch (e == j) (component f j)))
      where
        branch :
            (b : Bool) (c : RelationshipComponent)
            → record c { first = if b then v else c.first }
              ≡ (if b then record c { first = v } else c)
        branch true c = refl
        branch false c = refl

    pub set_prev :
        (v : Option ℕ)
        → Modified r e
            (λ c. record c { prev = v })
            (record f { prev = λ j. if e == j then v else f.prev j })
    set_prev v = modify-Stores storage _ e _ s h (
        differs f _ e (λ c. record c { prev = v }) h (λ j. refl) (λ j. refl)
          (λ j. branch (e == j) (component f j)))
      where
        branch :
            (b : Bool) (c : RelationshipComponent)
            → record c { prev = if b then v else c.prev } ≡ (if b then record c { prev = v } else c)
        branch true c = refl
        branch false c = refl

    pub set_next :
        (v : Option ℕ)
        → Modified r e
            (λ c. record c { next = v })
            (record f { next = λ j. if e == j then v else f.next j })
    set_next v = modify-Stores storage _ e _ s h (
        differs f _ e (λ c. record c { next = v }) h (λ j. refl) (λ j. refl)
          (λ j. branch (e == j) (component f j)))
      where
        branch :
            (b : Bool) (c : RelationshipComponent)
            → record c { next = if b then v else c.next } ≡ (if b then record c { next = v } else c)
        branch true c = refl
        branch false c = refl

    pub set_parent :
        (v : Option ℕ)
        → Modified r e
            (λ c. record c { parent = v })
            (record f { parent = λ j. if e == j then v else f.parent j })
    set_parent v = modify-Stores storage _ e _ s h (
        differs f _ e (λ c. record c { parent = v }) h (λ j. refl) (λ j. refl)
          (λ j. branch (e == j) (component f j)))
      where
        branch :
            (b : Bool) (c : RelationshipComponent)
            → record c { parent = if b then v else c.parent }
              ≡ (if b then record c { parent = v } else c)
        branch true c = refl
        branch false c = refl

    pub set_children :
        (n : ℕ → ℕ)
        → Modified r e
            (λ c. record c { children = n c.children })
            (record f { children = λ j. if e == j then n (f.children j) else f.children j })
    set_children n = modify-Stores storage _ e _ s h (
        differs f _ e (λ c. record c { children = n c.children }) h (λ j. refl) (λ j. refl)
          (λ j. branch (e == j) (component f j)))
      where
        branch :
            (b : Bool) (c : RelationshipComponent)
            → record c { children = if b then n c.children else c.children }
              ≡ (if b then record c { children = n c.children } else c)
        branch true c = refl
        branch false c = refl

    pub set_unlinked :
        Modified r e
          (λ c. record c { prev = none; next = none; parent = none })
          (record f {
            prev = λ j. if e == j then none else f.prev j;
            next = λ j. if e == j then none else f.next j;
            parent = λ j. if e == j then none else f.parent j;
          })
    set_unlinked = modify-Stores storage _ e _ s h (
        differs f _ e (λ c. record c { prev = none; next = none; parent = none }) h (λ j. refl)
          (λ j. refl) (λ j. branch (e == j) (component f j)))
      where
        branch :
            (b : Bool) (c : RelationshipComponent)
            → record c {
              prev = if b then none else c.prev;
              next = if b then none else c.next;
              parent = if b then none else c.parent;
            }
              ≡ (if b then record c { prev = none; next = none; parent = none } else c)
        branch true c = refl
        branch false c = refl

    pub set_alone :
        Modified r e
          (λ c. record c { prev = none; next = none })
          (record f {
            prev = λ j. if e == j then none else f.prev j;
            next = λ j. if e == j then none else f.next j;
          })
    set_alone = modify-Stores storage _ e _ s h (
        differs f _ e (λ c. record c { prev = none; next = none }) h (λ j. refl) (λ j. refl)
          (λ j. branch (e == j) (component f j)))
      where
        branch :
            (b : Bool) (c : RelationshipComponent)
            → record c { prev = if b then none else c.prev; next = if b then none else c.next }
              ≡ (if b then record c { prev = none; next = none } else c)
        branch true c = refl
        branch false c = refl

  pub link_next-Stores :
      {r : storage.Registry} {f : Fields} (q : Option ℕ) (p : ℕ) (v : Option ℕ)
      → Stores storage r f
      → f.has p ≡ true
      → ((i : ℕ) → q ≡ some i → f.has i ≡ true)
      → (r' : storage.Registry) × (link_next storage q p v r ≡ ok r')
        × Stores storage r' (with_next q p v f)
  unfolding link_next
  link_next-Stores none p v s h k = set_first p s h v
  link_next-Stores (some q) p v s h k = set_next q s (k q refl) v

  pub link_prev-Stores :
      {r : storage.Registry} {f : Fields} (q : Option ℕ) (v : Option ℕ)
      → Stores storage r f
      → ((i : ℕ) → q ≡ some i → f.has i ≡ true)
      → (r' : storage.Registry) × (link_prev storage q v r ≡ ok r')
        × Stores storage r' (with_prev q v f)
  unfolding link_prev
  link_prev-Stores {r} none v s k = (r, refl, s)
  link_prev-Stores (some q) v s k = set_prev q s (k q refl) v
