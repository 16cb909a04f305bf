-- ===== src/Engine/Hierarchy/Unlink.antt =====
-- `remove_child` on the fields of the components.
use portal_framework.Base.{
  ℕ, ◌-◌, ◌≡◌, sym, ap, subst, true, Option, none, some, ◌==◌, if◌then◌else◌, ok, Bool-cases, inl,
  inr,
}
use portal_framework.Engine.Hierarchy.{ComponentStorage, link_prev, unlink_child}
use portal_framework.Engine.Hierarchy.Siblings.{is}
use portal_framework.Engine.Hierarchy.Fields.{Fields, component, Stores, get_component-Stores}
use portal_framework.Engine.Hierarchy.Steps.{
  linked, linked_first, link_next-Stores, link_prev-Stores, set_unlinked, set_children,
}

-- The fields when `c`, a child of `p`, has left.
abbrev pub left : ℕ → ℕ → Fields → Fields
left p c f = record f {
  children = λ j. if p == j then f.children j - 1 else f.children j;
  first = linked_first (f.prev c) p (f.next c) f.first;
  prev = λ j. if c == j then none else linked (f.next c) (f.prev c) f.prev j;
  next = λ j. if c == j then none else linked (f.prev c) (f.next c) f.next j;
  parent = λ j. if c == j then none else f.parent j;
}

linked_self : (q : Option ℕ) (f : ℕ → Option ℕ) (c : ℕ) → linked q (f c) f c ≡ f c
linked_self q f c = elim (Bool-cases (is q c)) [
  | inl t ↦ ap (λ b. if b then f c else f c) t
  | inr t ↦ ap (λ b. if b then f c else f c) t
]

module _ (storage : ComponentStorage) where
  pub unlink_child-Stores :
      {r : storage.Registry} (f : Fields) (p c : ℕ)
      → Stores storage r f
      → f.has p ≡ true
      → f.has c ≡ true
      → ((i : ℕ) → f.prev c ≡ some i → f.has i ≡ true)
      → ((i : ℕ) → f.next c ≡ some i → f.has i ≡ true)
      → (r' : storage.Registry) × (unlink_child storage p c (component f c) r ≡ ok (true, r'))
        × Stores storage r' (left p c f)
  unfolding unlink_child
  unlink_child-Stores f p c s hp hc hb ha =
      let (r1, e1, s1) = link_next-Stores storage (f.prev c) p (f.next c) s hp hb in
      let (r2, e2, s2) = link_prev-Stores storage (f.next c) (f.prev c) s1 ha in
      let (r3, e3, s3) = set_unlinked storage c s2 hc in
      let (r4, e4, s4) = set_children storage p s3 hp (λ n. n - 1) in
      let e2' =
        subst (λ a. link_prev storage a (f.prev c) r1 ≡ ok r2)
          (sym (linked_self (f.prev c) f.next c)) e2 in
      (r4, rw (e1, get_component-Stores storage c s1 hc, e2', e3, e4), s4)
