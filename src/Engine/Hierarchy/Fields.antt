-- ===== src/Engine/Hierarchy/Fields.antt =====
-- The components of a registry, field by field.
use portal_framework.Base.{
  ℕ, ◌≡◌, sym, ap, ap₂, subst, inl, inr, Bool-cases, ◌∙◌, Bool, true, false, Option, none, some,
  ◌==◌, if◌then◌else◌, ok, arith,
}
use portal_framework.Engine.Hierarchy.{
  RelationshipComponent, ComponentStorage, new_component, get_component, modify,
  get_or_add_component,
}

pub record Fields : Type 0 where
  pub exists : ℕ → Bool
  pub has : ℕ → Bool
  pub children : ℕ → ℕ
  pub first : ℕ → Option ℕ
  pub prev : ℕ → Option ℕ
  pub next : ℕ → Option ℕ
  pub parent : ℕ → Option ℕ

abbrev pub component : Fields → ℕ → RelationshipComponent
component f e = record {
  children = f.children e;
  first = f.first e;
  prev = f.prev e;
  next = f.next e;
  parent = f.parent e;
}

abbrev pub update {ℓ} : {A : Type ℓ} → ℕ → A → (ℕ → A) → ℕ → A
update k a f j = if k == j then a else f j

pub same_choice {ℓ} : {A : Type ℓ} (f : ℕ → A) (e j : ℕ) → (if e == j then f e else f j) ≡ f j
same_choice f e j = elim (Bool-cases (e == j)) [
  | inl h ↦ ap (λ b. if b then f e else f j) h ∙ ap f (ground arith)
  | inr h ↦ ap (λ b. if b then f e else f j) h
]

==_self : (e : ℕ) → (e == e) ≡ true
==_self e = ground arith

stored :
    (b f g : Bool) (x y c : RelationshipComponent) {found : Option RelationshipComponent}
    → found ≡ (if f then some x else none)
    → g ≡ (if b then true else f)
    → y ≡ (if b then c else x)
    → (if b then some c else found) ≡ (if g then some y else none)
stored true f g x y c h i k = rw (i, k)
stored false f g x y c h i k = rw (h, i, k)

-- The entities and components of `g` are those of `f`, but for one component.
pub record Differs (f g : Fields) (e : ℕ) (c : RelationshipComponent) : Type 0 where
  pub same_exists : (j : ℕ) → g.exists j ≡ f.exists j
  pub same_has : (j : ℕ) → g.has j ≡ (if e == j then true else f.has j)
  pub changed : (j : ℕ) → component g j ≡ (if e == j then c else component f j)

module _ (storage : ComponentStorage) where
  -- The registry holds these components, for the entities that exist.
  pub record Stores (r : storage.Registry) (f : Fields) : Type 0 where
    pub finds : (e : ℕ) → storage.find e r ≡ (if f.has e then some (component f e) else none)
    pub valids : (e : ℕ) → storage.valid e r ≡ f.exists e

  -- What a registry holds is known field by field.
  pub same-Stores :
      {r : storage.Registry} {f g : Fields}
      → Stores r f
      → ((j : ℕ) → g.exists j ≡ f.exists j)
      → ((j : ℕ) → g.has j ≡ f.has j)
      → ((j : ℕ) → component g j ≡ component f j)
      → Stores r g
  same-Stores s x h c = record {
    valids = λ j. s.valids j ∙ sym (x j);
    finds = λ j. s.finds j ∙ sym (ap₂ (λ b d. if b then some d else none) (h j) (c j));
  }

  pub find-Stores :
      {r : storage.Registry} {f : Fields} (e : ℕ)
      → Stores r f
      → f.has e ≡ true
      → storage.find e r ≡ some (component f e)
  find-Stores {f} e s k = s.finds e ∙ ap (λ b. if b then some (component f e) else none) k

  pub get_component-Stores :
      {r : storage.Registry} {f : Fields} (e : ℕ)
      → Stores r f
      → f.has e ≡ true
      → get_component storage e r ≡ ok (component f e)
  unfolding get_component
  get_component-Stores e s k = rw (find-Stores e s k)

  pub valid-Stores :
      {r : storage.Registry} {f : Fields} (e : ℕ)
      → Stores r f
      → f.has e ≡ true
      → storage.valid e r ≡ true
  valid-Stores {r} {f} e s k = storage.valid-find e r (component f e) (find-Stores e s k)

  has_kept :
      (f g : Fields) (e j : ℕ) → f.has e ≡ true → Differs f g e (component f e) → g.has j ≡ f.has j
  has_kept f g e j h d =
      d.same_has j ∙ ap (λ b. if e == j then b else f.has j) (sym h) ∙ same_choice f.has e j

  component_kept :
      (f g : Fields) (e j : ℕ) → Differs f g e (component f e) → component g j ≡ component f j
  component_kept f g e j d = d.changed j ∙ same_choice (component f) e j

  put-Stores :
      (r : storage.Registry) (f g : Fields) (e : ℕ) (c : RelationshipComponent)
      → Stores r f
      → storage.valid e r ≡ true
      → Differs f g e c
      → Stores (storage.put e c r) g
  put-Stores r f g e c s v d = record {
    valids = λ j. storage.valid-put e j c r v ∙ s.valids j ∙ sym (d.same_exists j);
    finds = λ j.
        storage.find-put e j c r v
        ∙ stored (e == j) (f.has j) (g.has j) (component f j) (component g j) c (s.finds j)
            (d.same_has j) (d.changed j);
  }

  -- A component is there, or is added.
  pub get_or_add_component-Stores :
      {r : storage.Registry} {f : Fields} (g : Fields) (e : ℕ)
      → Stores r f
      → f.exists e ≡ true
      → Differs f g e (if f.has e then component f e else new_component)
      → (r' : storage.Registry) × (get_or_add_component storage e r ≡ ok (component g e, r'))
        × Stores r' g
  unfolding get_or_add_component
  get_or_add_component-Stores {r} {f} g e s v d = elim (Bool-cases (f.has e)) [
    | inl h ↦
        let d' = subst (λ b. Differs f g e (if b then component f e else new_component)) h d in
        (
          r,
          (rw (find-Stores e s h, get_or_add_component))
              ∙ ap (λ c. ok (c, r)) (sym (component_kept f g e e d')),
          record {
            valids = λ j. s.valids j ∙ sym (d.same_exists j);
            finds = λ j.
                s.finds j
                ∙ sym (
                    ap₂ (λ b c. if b then some c else none) (has_kept f g e j h d')
                      (component_kept f g e j d'));
          },
        )
    | inr h ↦
        let d' = subst (λ b. Differs f g e (if b then component f e else new_component)) h d in
        let put = storage.put e new_component r in
        let missing : storage.find e r ≡ none =
          s.finds e ∙ ap (λ b. if b then some (component f e) else none) h in
        let exists = s.valids e ∙ v in
        (
          put,
          (rw (missing, exists, get_or_add_component))
              ∙ ap (λ c. ok (c, put))
                  (sym (
                    d'.changed e
                    ∙ ap (λ b. if b then new_component else component f e) (==_self e))),
          put-Stores r f g e new_component s (s.valids e ∙ v) d',
        )
  ]

  -- A modification of one component.
  pub modify-Stores :
      {r : storage.Registry} {f : Fields} (g : Fields) (e : ℕ)
      (change : RelationshipComponent → RelationshipComponent)
      → Stores r f
      → f.has e ≡ true
      → Differs f g e (change (component f e))
      → (r' : storage.Registry) × (modify storage e change r ≡ ok r') × Stores r' g
  unfolding modify get_component
  modify-Stores {r} {f} g e change s k d = (
    storage.put e (change (component f e)) r,
    rw (find-Stores e s k),
    put-Stores r f g e (change (component f e)) s (valid-Stores e s k) d,
  )
