-- ===== src/Engine/Hierarchy/Descendants.antt =====
-- engine/portal/engine/ecs/entity.cpp: `RecursiveChildIterator`. The stack is a list, its top first.
pub mod Preorder
use portal_framework.Base.{
  ℕ, zero, suc, ◌≡◌, Bool, true, false, List, [], ◌∷◌, ◌++◌, Option, none, some, ◌==◌,
  if◌then◌else◌, Result, ok, ◌>>=◌,
}
use portal_framework.Engine.Hierarchy.{ComponentStorage, get_component, walk}

-- `current` and `stack`.
pub record RecursiveChildIterator : Type 0 where
  pub current : Option ℕ
  pub stack : List ℕ

module _ (storage : ComponentStorage) (fuel : ℕ) where
  -- The children of an entity are pushed in reverse, so that the first is on top. The loop over them
  -- runs on fuel.
  unfoldable pub push_children : ℕ → List ℕ → storage.Registry → Result (List ℕ)
  unfolding get_component walk
  push_children e stack r = get_component storage e r >>= λ c.
      if c.children == 0
      then ok stack
      else (walk storage fuel c.first r >>= λ temp. ok (temp ++ stack))

  unfoldable pub advance_to_next : List ℕ → storage.Registry → Result RecursiveChildIterator
  unfolding push_children
  advance_to_next [] r = ok (record { current = none; stack = [] })
  advance_to_next (e ∷ stack) r =
      push_children e stack r >>= λ pushed. ok (record { current = some e; stack = pushed })

  -- `RecursiveChildIterator(start, registry)`
  unfoldable pub begin : ℕ → storage.Registry → Result RecursiveChildIterator
  unfolding push_children advance_to_next
  begin start r = push_children start [] r >>= λ pushed. advance_to_next pushed r

  -- The loop from `it` to the end, for at most `n` entities: what it visits.
  unfoldable pub visit : ℕ → storage.Registry → RecursiveChildIterator → Result (List ℕ)
  unfolding advance_to_next
  visit zero r it = ok []
  visit (suc n) r it = elim it.current [
    | none ↦ ok []
    | some e ↦ advance_to_next it.stack r >>= (λ next. visit n r next >>= λ rest. ok (e ∷ rest))
  ]

  unfoldable pub descendants : ℕ → ℕ → storage.Registry → Result (List ℕ)
  unfolding begin visit
  descendants n e r = begin e r >>= visit n r
