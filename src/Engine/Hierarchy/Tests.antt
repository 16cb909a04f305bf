-- ===== src/Engine/Hierarchy/Tests.antt =====
-- Tests of Engine.Hierarchy, with a registry that is a function.
use portal_framework.Base.{
  ℕ, ◌≡◌, ◌≤◌, ◌<◌, refl, true, [], ◌∷◌, Option, none, some, arith, ◌==◌, if◌then◌else◌, length, ok,
}
use portal_framework.Engine.Hierarchy.{
  RelationshipComponent, ComponentStorage, remove_child, set_parent, children, has_children,
}
use portal_framework.Engine.Hierarchy.Forest.{Forest, fields_of, leave, move, Represents}
use portal_framework.Engine.Hierarchy.Refinement.{set_parent-refines, remove_child-refines}
use portal_framework.Engine.Hierarchy.Walk.{children-kids}
use portal_framework.Engine.Hierarchy.Descendants.{descendants}
use portal_framework.Engine.Hierarchy.Descendants.Preorder.{descendants-preorder}

-- Every entity exists.
abbrev function_storage : ComponentStorage
function_storage = record {
  Registry = ℕ → Option RelationshipComponent;
  valid = λ k r. true;
  find = λ k r. r k;
  put = λ k c r. λ j. if k == j then some c else r j;
  valid-find = λ k r c h. refl;
  valid-put = λ k j c r h. refl;
  find-put = λ k j c r h. refl;
}

-- The entities 2 and 3 are children of 1.
abbrev family : Forest
family = record {
  exists = λ j. true;
  has = λ j. if j == 1 then true else if j == 2 then true else j == 3;
  kids = λ j. if j == 1 then 2 ∷ 3 ∷ [] else [];
  parent = λ j. if j == 2 then some 1 else if j == 3 then some 1 else none;
}

abbrev stored : ℕ → Option RelationshipComponent
stored j =
    if family.has j
    then some (record {
      children = (fields_of family).children j;
      first = (fields_of family).first j;
      prev = (fields_of family).prev j;
      next = (fields_of family).next j;
      parent = (fields_of family).parent j;
    })
    else none

family-Represents : Represents function_storage stored family
family-Represents = (
  record { finds = λ e. refl; valids = λ e. refl },
  record {
    counts = λ e p. ground arith;
    members = λ e p h. (ground arith, ground arith);
    bare = λ p h. ground arith;
  },
)

set_parent-refines_example :
    (r' : ℕ → Option RelationshipComponent) × (set_parent function_storage 2 (some 4) stored
      ≡ ok r')
    × Represents function_storage r' (move 2 (some 4) family)
set_parent-refines_example =
    set_parent-refines function_storage stored family 2 (some 4) family-Represents refl
      (λ p h. refl)

remove_child-refines_example :
    (r' : ℕ → Option RelationshipComponent) × (remove_child function_storage 1 2 stored
      ≡ ok (true, r'))
    × Represents function_storage r' (leave (some 1) 2 family)
remove_child-refines_example =
    remove_child-refines function_storage stored family 1 2 family-Represents refl refl

children-kids_example :
    (children function_storage 5 1 stored ≡ ok (2 ∷ 3 ∷ []))
    × (has_children function_storage 1 stored ≡ true)
children-kids_example =
    children-kids function_storage stored family 1 5 family-Represents refl (omega arith)

descendants-preorder_example : descendants function_storage 5 5 1 stored ≡ ok (2 ∷ 3 ∷ [])
descendants-preorder_example =
    descendants-preorder function_storage 5 stored family 1 3 (λ j. if j == 1 then 1 else 0)
      family-Represents refl few older
  where
    few : (p : ℕ) → length (family.kids p) ≤ 5
    few p = ground arith

    older :
        (j p : ℕ) → family.parent j ≡ some p → (if j == 1 then 1 else 0) < (if p == 1 then 1 else 0)
    older j p h = ground (arith, h)
