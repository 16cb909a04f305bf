-- ===== src/Engine/Hierarchy/Forest.antt =====
-- What the hierarchy of entities stands for: each entity has a list of children.
pub mod Shape
use portal_framework.Base.{
  ℕ, ◌+◌, ◌≡◌, Bool, true, false, List, [], ◌∷◌, ◌++◌, Option, none, some, ◌==◌, if◌then◌else◌,
  length,
}
use portal_framework.Base.Counting.{count, remove}
use portal_framework.Engine.Hierarchy.{ComponentStorage, same}
use portal_framework.Engine.Hierarchy.Siblings.{is, head, after, before}
use portal_framework.Engine.Hierarchy.Fields.{Fields, Stores}

-- `has` tells which entities have a RelationshipComponent.
pub record Forest : Type 0 where
  pub exists : ℕ → Bool
  pub has : ℕ → Bool
  pub kids : ℕ → List ℕ
  pub parent : ℕ → Option ℕ

abbrev pub kids_of : (ℕ → List ℕ) → Option ℕ → List ℕ
kids_of kids none = []
kids_of kids (some p) = kids p

-- The fields that stand for a forest.
abbrev pub fields_of : Forest → Fields
fields_of t = record {
  exists = t.exists;
  has = t.has;
  children = λ j. length (t.kids j);
  first = λ j. head (t.kids j);
  prev = λ j. before none j (kids_of t.kids (t.parent j));
  next = λ j. after j (kids_of t.kids (t.parent j));
  parent = t.parent;
}

-- An entity is in the list of its parent, once, and in no other. What has a parent or a child has a
-- component.
pub record IsForest (t : Forest) : Type 0 where
  pub counts : (e p : ℕ) → count e (t.kids p) ≡ (if is (t.parent e) p then 1 else 0)
  pub members : (e p : ℕ) → t.parent e ≡ some p → (t.has e ≡ true) × (t.has p ≡ true)
  pub bare : (p : ℕ) → t.has p ≡ false → t.kids p ≡ []

module _ (storage : ComponentStorage) where
  -- The registry holds a forest.
  abbrev pub Represents : storage.Registry → Forest → Type 0
  Represents r t = Stores storage r (fields_of t) × IsForest t

-- An entity gets a component, leaves its parent, and becomes the last child of a parent.
abbrev pub touch : ℕ → Forest → Forest
touch e t = record t { has = λ j. if e == j then true else t.has j }

abbrev pub leave : Option ℕ → ℕ → Forest → Forest
leave none e t = t
leave (some p) e t = record t {
  kids = λ j. if p == j then remove e (t.kids j) else t.kids j;
  parent = λ j. if e == j then none else t.parent j;
}

abbrev pub join : Option ℕ → ℕ → Forest → Forest
join none e t = t
join (some p) e t = record t {
  has = λ j. if p == j then true else t.has j;
  kids = λ j. if p == j then t.kids j ++ e ∷ [] else t.kids j;
  parent = λ j. if e == j then some p else t.parent j;
}

-- What `set_parent` promises: the entity moves to the end of the list of the new parent, and stays
-- where it is when it is there.
abbrev pub move : ℕ → Option ℕ → Forest → Forest
move e parent t =
    if same (t.parent e) parent then touch e t else join parent e (leave (t.parent e) e (touch e t))
