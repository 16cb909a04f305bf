-- ===== src/Engine/Hierarchy/Refinement.antt =====
-- `set_parent` and `remove_child` do to the lists of children what they promise.
use portal_framework.Base.{
  ℕ, ◌≡◌, refl, sym, ap, subst, ◌∙◌, Bool, true, false, Option, none, some, ◌==◌, if◌then◌else◌,
  arith, Bool-cases, inl, inr, ok, ◌>>=◌,
}
use portal_framework.Engine.Hierarchy.{
  ComponentStorage, same, get_or_add_component, modify, remove_child, leave_parent, join_parent,
  change_parent, set_parent,
}
use portal_framework.Engine.Hierarchy.Siblings.{is}
use portal_framework.Engine.Hierarchy.Fields.{
  component, Stores, same-Stores, find-Stores, get_component-Stores, valid-Stores, same_choice,
}
use portal_framework.Engine.Hierarchy.Steps
use portal_framework.Engine.Hierarchy.Append.{IsBare, add-Stores}
use portal_framework.Engine.Hierarchy.Forest.{
  Forest, IsForest, fields_of, touch, leave, join, move, Represents,
}
use portal_framework.Engine.Hierarchy.Forest.Shape.{touch-IsForest}
use portal_framework.Engine.Hierarchy.Leave.{remove_child-Represents}
use portal_framework.Engine.Hierarchy.Join.{append_child-Represents}

no_parent : (t : Forest) → IsForest t → (j : ℕ) → t.has j ≡ false → t.parent j ≡ none
no_parent t w j b = by_case (t.parent j) refl
  where
    by_case : (o : Option ℕ) → t.parent j ≡ o → o ≡ none
    by_case none m = refl
    by_case (some q) m = ground (arith, w.members j q m, b)

fields_of-IsBare : (t : Forest) → IsForest t → IsBare (fields_of t)
fields_of-IsBare t w j b = rw (w.bare j b, no_parent t w j b)

-- The forest in which a component is there already.
touched : (t : Forest) (e j : ℕ) → t.has e ≡ true → t.has j ≡ (touch e t).has j
touched t e j h = sym (ap (λ b. if e == j then b else t.has j) (sym h) ∙ same_choice t.has e j)

is-some : (o : Option ℕ) {p : ℕ} → is o p ≡ true → o ≡ some p
is-some none m = cc
is-some (some q) m = ap some (ground arith)

leave_has : (t : Forest) (e j : ℕ) (o : Option ℕ) → (leave o e t).has j ≡ t.has j
leave_has t e j none = refl
leave_has t e j (some p) = refl

leave_exists : (t : Forest) (e j : ℕ) (o : Option ℕ) → (leave o e t).exists j ≡ t.exists j
leave_exists t e j none = refl
leave_exists t e j (some p) = refl

leave_orphan : (t : Forest) (e : ℕ) (o : Option ℕ) → t.parent e ≡ o → (leave o e t).parent e ≡ none
leave_orphan t e none h = h
leave_orphan t e (some p) h = ground arith

-- What has no parent has no siblings.
alone :
    (t : Forest) (e : ℕ)
    → t.parent e ≡ none
    → (j : ℕ)
    → component (fields_of t) j
      ≡ component
          (record (fields_of t) {
            prev = λ j. if e == j then none else (fields_of t).prev j;
            next = λ j. if e == j then none else (fields_of t).next j;
            parent = λ j. if e == j then none else t.parent j;
          })
          j
alone t e h j = elim (Bool-cases (e == j)) [
  | inl m ↦ let n : t.parent j ≡ none = ap t.parent (sym (equal m)) ∙ h in rw (m, n)
  | inr m ↦ rw (m)
]
  where
    equal : (e == j) ≡ true → e ≡ j
    equal m = ground arith

module _ (storage : ComponentStorage) where
  leave_parent-Represents :
      (r : storage.Registry) (t : Forest) (e : ℕ) (o : Option ℕ)
      → t.parent e ≡ o
      → Represents storage r t
      → (r' : storage.Registry) × (leave_parent storage o e r ≡ ok r')
        × Represents storage r' (leave o e t)
  unfolding leave_parent
  leave_parent-Represents r t e none h w = (r, refl, w)
  leave_parent-Represents r t e (some p) h (s, w) =
      let (r', m, w') = remove_child-Represents storage r t p e h (s, w) in
      let v = valid-Stores storage p s (w.members e p h).1 in (r', rw (v, m), w')

  join_parent-Represents :
      (r : storage.Registry) (t : Forest) (e : ℕ) (o : Option ℕ)
      → t.parent e ≡ none
      → t.has e ≡ true
      → ((p : ℕ) → o ≡ some p → t.exists p ≡ true)
      → Stores storage r (record (fields_of t) { parent = λ j. if e == j then o else t.parent j })
      → IsForest t
      → (r' : storage.Registry) × (join_parent storage o e r ≡ ok r')
        × Represents storage r' (join o e t)
  unfolding join_parent
  join_parent-Represents r t e none h k x s w =
      let (r', m, s') = Steps.set_alone storage e s k in
      (r', m, (same-Stores storage s' (λ j. refl) (λ j. refl) (alone t e h), w))
  join_parent-Represents r t e (some p) h k x s w =
      let (r', m, w') = append_child-Represents storage r t p e h k (x p refl) s w in
      (r', rw (s.valids p ∙ x p refl, m), w')

  -- What `change_parent` does behind `leave_parent`.
  adopt-Represents :
      (r : storage.Registry) (t : Forest) (e : ℕ) (parent : Option ℕ)
      → t.parent e ≡ none
      → t.has e ≡ true
      → t.exists e ≡ true
      → ((p : ℕ) → parent ≡ some p → t.exists p ≡ true)
      → Represents storage r t
      → (r' : storage.Registry) × ((get_or_add_component storage e r >>= (λ out.
            modify storage e (λ c. record c { parent = parent }) out.1
            >>= join_parent storage parent e))
          ≡ ok r')
        × Represents storage r' (join parent e t)
  adopt-Represents r t e parent h k x y (s, w) =
      let (r2, m2, s2) = add-Stores storage (fields_of t) e s x (fields_of-IsBare t w) in
      let (r3, m3, s3) = Steps.set_parent storage e s2 (sym (touched t e e k) ∙ k) parent in
      let s3' = same-Stores storage s3 (λ j. refl) (λ j. touched t e j k) (λ j. refl) in
      let (r4, m4, w4) = join_parent-Represents r3 t e parent h k y s3' w in
      (r4, rw (m2, m3, m4), w4)

  change_parent-Represents :
      (r : storage.Registry) (t : Forest) (e : ℕ) (parent : Option ℕ)
      → t.has e ≡ true
      → t.exists e ≡ true
      → ((p : ℕ) → parent ≡ some p → t.exists p ≡ true)
      → Represents storage r t
      → (r' : storage.Registry) × (change_parent storage (t.parent e) e parent r ≡ ok r')
        × Represents storage r' (join parent e (leave (t.parent e) e t))
  unfolding change_parent
  change_parent-Represents r t e parent h k x w =
      let (r1, m1, w1) = leave_parent-Represents r t e (t.parent e) refl w in
      let (r2, m2, w2) =
        adopt-Represents r1 (leave (t.parent e) e t) e parent (leave_orphan t e (t.parent e) refl)
          (leave_has t e e (t.parent e) ∙ h) (leave_exists t e e (t.parent e) ∙ k)
          (λ p q. leave_exists t e p (t.parent e) ∙ x p q) w1 in
      (r2, rw (m1) m2, w2)

  -- Where a registry holds a forest in which both entities have components, `parent.remove_child(child)`
  -- tells whether `child` is a child of `parent`; if so the registry then holds the forest without the
  -- child in the list of its parent, and else the same forest.
  pub remove_child-refines :
      (r : storage.Registry) (t : Forest) (parent child : ℕ)
      → Represents storage r t
      → t.has parent ≡ true
      → t.has child ≡ true
      → (r' : storage.Registry) × (remove_child storage parent child r
          ≡ ok (is (t.parent child) parent, r'))
        × Represents storage r'
            (if is (t.parent child) parent then leave (some parent) child t else t)
  unfolding remove_child
  remove_child-refines r t p e (s, w) h k = elim (Bool-cases (is (t.parent e) p)) [
    | inl m ↦
        let (r', n, w') = remove_child-Represents storage r t p e (is-some (t.parent e) m) (s, w) in
        (
          r',
          rw (m) n,
          subst (Represents storage r') (ap (λ b. if b then leave (some p) e t else t) (sym m)) w',
        )
    | inr m ↦ (
      r,
      rw (find-Stores storage p s h, get_component-Stores storage e s k, m, remove_child),
      subst (Represents storage r) (ap (λ b. if b then leave (some p) e t else t) (sym m)) (s, w),
    )
  ]

  -- A registry that holds a forest holds the forest with the entity moved after `set_parent`, which
  -- succeeds: `entity` exists, and the new parent, which may be null, exists if it is not. The entity
  -- may be an ancestor of the new parent, or the parent itself.
  pub set_parent-refines :
      (r : storage.Registry) (t : Forest) (entity : ℕ) (parent : Option ℕ)
      → Represents storage r t
      → t.exists entity ≡ true
      → ((p : ℕ) → parent ≡ some p → t.exists p ≡ true)
      → (r' : storage.Registry) × (set_parent storage entity parent r ≡ ok r')
        × Represents storage r' (move entity parent t)
  unfolding set_parent
  set_parent-refines r t e parent (s, w) x y =
      let (r1, m1, s1) = add-Stores storage (fields_of t) e s x (fields_of-IsBare t w) in
      let w1 = touch-IsForest e t w in
      elim (Bool-cases (same (t.parent e) parent)) [
        | inl h ↦ (r1, rw (m1, h), subst (Represents storage r1) (moved h) (s1, w1))
        | inr h ↦
            let (r2, m2, w2) =
              change_parent-Represents r1 (touch e t) e parent (ground arith) x y (s1, w1) in
            (r2, rw (m1, h, m2), subst (Represents storage r2) (moved h) w2)
      ]
    where
      moved :
          {b : Bool}
          → same (t.parent e) parent ≡ b
          → (if b then touch e t else join parent e (leave (t.parent e) e (touch e t)))
            ≡ move e parent t
      moved h =
          sym
            (ap (λ b. if b then touch e t else join parent e (leave (t.parent e) e (touch e t))) h)
