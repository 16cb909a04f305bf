-- ===== src/Engine/Hierarchy.antt =====
-- engine/portal/engine/ecs/entity.cpp and components/relationship.h: parents and children of
-- entities. An entity is its identifier, and a handle that may be null an Option. The registry that
-- stores the components is a parameter.
pub mod Siblings
pub mod Fields
pub mod Steps
pub mod Unlink
pub mod Forest
pub mod Append
pub mod Walk
pub mod Leave
pub mod Join
pub mod Refinement
pub mod Descendants
mod Tests
use portal_framework.Base.{
  ℕ, zero, suc, ◌+◌, ◌-◌, ◌≡◌, Bool, true, false, not, List, [], ◌∷◌, Option, none, some, ◌==◌,
  if◌then◌else◌, Result, ok, err, Error, ◌>>=◌,
}
use portal_framework.Engine.Hierarchy.Siblings.{is}

pub record RelationshipComponent : Type 0 where
  pub children : ℕ
  pub first : Option ℕ
  pub prev : Option ℕ
  pub next : Option ℕ
  pub parent : Option ℕ

abbrev pub new_component : RelationshipComponent
new_component = record { children = 0; first = none; prev = none; next = none; parent = none }

-- What the engine relies on of `entt::registry`, a library that it calls: what stands where in the
-- storage of one type of component, and which entities exist. Components are put only on these, and
-- a reference to a component stays good when others are added.
pub record ComponentStorage : Type 1 where
  pub Registry : Type 0
  pub valid : ℕ → Registry → Bool
  pub find : ℕ → Registry → Option RelationshipComponent
  pub put : ℕ → RelationshipComponent → Registry → Registry
  pub valid-find :
      (k : ℕ) (r : Registry) (c : RelationshipComponent) → find k r ≡ some c → valid k r ≡ true
  pub valid-put :
      (k j : ℕ) (c : RelationshipComponent) (r : Registry)
      → valid k r ≡ true
      → valid j (put k c r) ≡ valid j r
  pub find-put :
      (k j : ℕ) (c : RelationshipComponent) (r : Registry)
      → valid k r ≡ true
      → find j (put k c r) ≡ (if k == j then some c else find j r)

-- An access through a handle.
abbrev pub access {ℓ} : {A : Type ℓ} → Option A → Result A
access none = err Error.undefined_access
access (some a) = ok a

-- `==` of two handles, of which the first has a registry, and the second has it where it is not null.
abbrev pub same : Option ℕ → Option ℕ → Bool
same none other = false
same (some e) none = false
same (some e) (some other) = e == other

abbrev pub unlinked : RelationshipComponent → RelationshipComponent
unlinked c = record c { prev = none; next = none; parent = none }

module _ (storage : ComponentStorage) where
  abbrev Registry : Type 0
  Registry = storage.Registry

  unfoldable pub get_component : ℕ → Registry → Result RelationshipComponent
  get_component e r = access (storage.find e r)

  -- An assignment to fields of a component, through its reference.
  unfoldable pub modify :
      ℕ → (RelationshipComponent → RelationshipComponent) → Registry → Result Registry
  unfolding get_component
  modify e f r = do c ← get_component e r; ok (storage.put e (f c) r)

  unfoldable pub get_or_add_component : ℕ → Registry → Result (RelationshipComponent × Registry)
  get_or_add_component e r = elim (storage.find e r) [
    | some c ↦ ok (c, r)
    | none ↦
        if storage.valid e r
        then ok (new_component, storage.put e new_component r)
        else err Error.undefined_access
  ]

  unfoldable pub has_children : ℕ → Registry → Bool
  has_children e r = elim (storage.find e r) [ none ↦ false | some c ↦ not (c.children == 0) ]

  -- The sibling before the child, or else the parent, is linked to what follows, and the sibling
  -- behind the child to what precedes.
  unfoldable pub link_next : Option ℕ → ℕ → Option ℕ → Registry → Result Registry
  unfolding modify
  link_next none parent v r = modify parent (λ c. record c { first = v }) r
  link_next (some prev) parent v r = modify prev (λ c. record c { next = v }) r

  unfoldable pub link_prev : Option ℕ → Option ℕ → Registry → Result Registry
  unfolding modify
  link_prev none v r = ok r
  link_prev (some next) v r = modify next (λ c. record c { prev = v }) r

  -- The part of `remove_child` behind its early returns.
  unfoldable pub unlink_child : ℕ → ℕ → RelationshipComponent → Registry → Result (Bool × Registry)
  unfolding get_component modify link_next link_prev
  unlink_child parent child child_rel r = do
    r1 ← link_next child_rel.prev parent child_rel.next r
    child_rel1 ← get_component child r1
    r2 ← link_prev child_rel1.next child_rel1.prev r1
    r3 ← modify child unlinked r2
    r4 ← modify parent (λ c. record c { children = c.children - 1 }) r3
    ok (true, r4)

  -- `parent.remove_child(child)`
  unfoldable pub remove_child : ℕ → ℕ → Registry → Result (Bool × Registry)
  unfolding get_component unlink_child
  remove_child parent child r = elim (storage.find parent r) [
    | none ↦ err Error.assertion_failed
    | some parent_rel ↦ do
      child_rel ← get_component child r
      if is child_rel.parent parent then unlink_child parent child child_rel r else ok (false, r)
  ]

  -- The loop that finds the last child, from a first one on.
  unfoldable pub last_child : ℕ → ℕ → Registry → Result ℕ
  unfolding get_component
  last_child zero e r = ok e
  last_child (suc i) e r = do c ← get_component e r; next ← access c.next; last_child i next r

  -- `child` becomes the first child, or the one behind the last.
  unfoldable pub link_last : ℕ → ℕ → RelationshipComponent → Registry → Result Registry
  unfolding modify last_child
  link_last parent child parent_rel r =
      if parent_rel.children == 0
      then modify parent (λ c. record c { first = some child }) r
      else (do
        first ← access parent_rel.first
        last ← last_child (parent_rel.children - 1) first r
        r1 ← modify last (λ c. record c { next = some child }) r
        modify child (λ c. record c { prev = some last }) r1)

  -- The part of `set_parent` under `if (parent)`.
  unfoldable pub append_child : ℕ → ℕ → Registry → Result Registry
  unfolding modify get_or_add_component link_last
  append_child parent child r = do
    (parent_rel, r1) ← get_or_add_component parent r
    r2 ← link_last parent child parent_rel r1
    r3 ← modify parent (λ c. record c { children = c.children + 1 }) r2
    modify child (λ c. record c { next = none }) r3

  unfoldable pub leave_parent : Option ℕ → ℕ → Registry → Result Registry
  unfolding remove_child
  leave_parent none child r = ok r
  leave_parent (some parent) child r =
      if storage.valid parent r then remove_child parent child r >>= (λ out. ok out.1) else ok r

  unfoldable pub join_parent : Option ℕ → ℕ → Registry → Result Registry
  unfolding append_child modify
  join_parent none child r = modify child (λ c. record c { prev = none; next = none }) r
  join_parent (some parent) child r =
      if storage.valid parent r
      then append_child parent child r
      else modify child (λ c. record c { prev = none; next = none }) r

  -- The part of `set_parent` behind its early return.
  unfoldable pub change_parent : Option ℕ → ℕ → Option ℕ → Registry → Result Registry
  unfolding get_or_add_component leave_parent modify join_parent
  change_parent current child parent r = do
    r1 ← leave_parent current child r
    (relationship, r2) ← get_or_add_component child r1
    r3 ← modify child (λ c. record c { parent = parent }) r2
    join_parent parent child r3

  -- `child.set_parent(parent)`. A null handle has no registry, so that it differs from what
  -- `get_parent` returns.
  unfoldable pub set_parent : ℕ → Option ℕ → Registry → Result Registry
  unfolding get_or_add_component change_parent
  set_parent child parent r = do
    (current, r1) ← get_or_add_component child r
    if same current.parent parent then ok r1 else change_parent current.parent child parent r1

  -- The loop `for (auto child : e.children())`, for at most `fuel` children: what it visits.
  unfoldable pub walk : ℕ → Option ℕ → Registry → Result (List ℕ)
  unfolding get_component
  walk fuel none r = ok []
  walk zero (some e) r = ok []
  walk (suc fuel) (some e) r = do c ← get_component e r; rest ← walk fuel c.next r; ok (e ∷ rest)

  unfoldable pub children : ℕ → ℕ → Registry → Result (List ℕ)
  unfolding get_component walk
  children fuel e r = do c ← get_component e r; walk fuel c.first r
