-- ===== src/Engine/Hierarchy/Append.antt =====
-- `append_child` on the fields of the components, and the loops over children.
use portal_framework.Base.{
  ℕ, ◌+◌, ◌-◌, ◌≡◌, refl, sym, ap, ◌∙◌, true, false, List, [], ◌∷◌, Option, none, some, ◌==◌,
  if◌then◌else◌, ok, arith, Bool-cases, inl, inr, length,
}
use portal_framework.Engine.Hierarchy.{
  ComponentStorage, new_component, get_or_add_component, last_child, link_last, append_child,
}
use portal_framework.Engine.Hierarchy.Siblings.{last}
use portal_framework.Engine.Hierarchy.Fields.{
  Fields, component, Stores, get_component-Stores, get_or_add_component-Stores, same_choice,
}
use portal_framework.Engine.Hierarchy.Steps.{
  linked, linked_first, set_first, set_next, set_prev, set_children,
}

-- What has no component has the fields of a new one.
abbrev pub IsBare : Fields → Type 0
IsBare f = (j : ℕ) → f.has j ≡ false → component f j ≡ new_component

abbrev pub with_component : ℕ → Fields → Fields
with_component e f = record f { has = λ j. if e == j then true else f.has j }

-- From `x` on the children are `x ∷ xs`, each with a component, and no more.
abbrev pub Follows : Fields → ℕ → List ℕ → Type 0
Follows f x [] = (f.has x ≡ true) × (f.next x ≡ none)
Follows f x (y ∷ ys) = (f.has x ≡ true) × (f.next x ≡ some y) × Follows f y ys

abbrev pub behind : Option ℕ → ℕ → Option ℕ → ℕ → Option ℕ
behind none e prev j = prev
behind (some l) e prev j = if e == j then some l else prev

-- The fields when `e` has become the last child of `p`, behind `l`.
abbrev pub joined : ℕ → ℕ → Option ℕ → Fields → Fields
joined p e l f = record f {
  has = λ j. if p == j then true else f.has j;
  children = λ j. if p == j then f.children j + 1 else f.children j;
  first = linked_first l p (some e) f.first;
  prev = λ j. behind l e (f.prev j) j;
  next = λ j. if e == j then none else linked l (some e) f.next j;
}

module _ (storage : ComponentStorage) where
  pub add-Stores :
      {r : storage.Registry} (f : Fields) (e : ℕ)
      → Stores storage r f
      → f.exists e ≡ true
      → IsBare f
      → (r' : storage.Registry) × (get_or_add_component storage e r ≡ ok (component f e, r'))
        × Stores storage r' (with_component e f)
  add-Stores f e s x bare = get_or_add_component-Stores storage (with_component e f) e s x (record {
    same_exists = λ j. refl;
    same_has = λ j. refl;
    changed = λ j.
        sym (ap (λ c. if e == j then c else component f j) there ∙ same_choice (component f) e j);
  })
    where
      there : (if f.has e then component f e else new_component) ≡ component f e
      there = elim (Bool-cases (f.has e)) [
        | inl h ↦ ap (λ b. if b then component f e else new_component) h
        | inr h ↦ ap (λ b. if b then component f e else new_component) h ∙ sym (bare e h)
      ]

  pub last_child-Stores :
      {r : storage.Registry} {f : Fields} (x : ℕ) (xs : List ℕ)
      → Stores storage r f
      → Follows f x xs
      → (y : ℕ) × (last_child storage (length xs) x r ≡ ok y)
        × (last (some x) xs ≡ some y)
        × (f.has y ≡ true)
  unfolding last_child
  last_child-Stores x [] s (h, n) = (x, refl, refl, h)
  last_child-Stores {f} x (y ∷ ys) s (h, n, k) =
      let (z, e, l, m) = last_child-Stores y ys s k in
      (z, rw (get_component-Stores storage x s h, n, e), l, m)

  -- The last of the children of `p`, as the code finds it.
  abbrev pub FindsLast : storage.Registry → Fields → ℕ → Option ℕ → Type 0
  FindsLast r f p none = f.children p ≡ 0
  FindsLast r f p (some y) =
      (x : ℕ) × ((f.children p == 0) ≡ false)
      × (f.first p ≡ some x)
      × (last_child storage (f.children p - 1) x r ≡ ok y)
      × (f.has y ≡ true)

  link_last-Stores :
      {r : storage.Registry} (f : Fields) (p e : ℕ) (l : Option ℕ)
      → Stores storage r f
      → f.has p ≡ true
      → f.has e ≡ true
      → FindsLast r f p l
      → (r' : storage.Registry) × (link_last storage p e (component f p) r ≡ ok r')
        × Stores storage r' (record f {
          first = linked_first l p (some e) f.first;
          prev = λ j. behind l e (f.prev j) j;
          next = linked l (some e) f.next;
        })
  unfolding link_last
  link_last-Stores f p e none s hp he k =
      let (r', m, s') = set_first storage p s hp (some e) in (r', rw (k, m), s')
  link_last-Stores f p e (some y) s hp he (x, k, h, l, hy) =
      let (r1, e1, s1) = set_next storage y s hy (some e) in
      let (r2, e2, s2) = set_prev storage e s1 he (some y) in (r2, rw (k, h, l, e1, e2), s2)

  pub append_child-Stores :
      {r : storage.Registry} (f : Fields) (p e : ℕ) (l : Option ℕ)
      → Stores storage r f
      → f.exists p ≡ true
      → f.has e ≡ true
      → IsBare f
      → ((r1 : storage.Registry)
          → Stores storage r1 (with_component p f)
          → FindsLast r1 (with_component p f) p l)
      → (r' : storage.Registry) × (append_child storage p e r ≡ ok r')
        × Stores storage r' (joined p e l f)
  unfolding append_child
  append_child-Stores f p e l s x he bare finds =
      let (r1, e1, s1) = add-Stores f p s x bare in
      let hp : (with_component p f).has p ≡ true = ground arith in
      let he1 : (with_component p f).has e ≡ true = ground (arith, he) in
      let (r2, e2, s2) = link_last-Stores (with_component p f) p e l s1 hp he1 (finds r1 s1) in
      let (r3, e3, s3) = set_children storage p s2 hp (λ n. n + 1) in
      let (r4, e4, s4) = set_next storage e s3 he1 none in (r4, rw (e1, e2, e3, e4), s4)
