-- ===== src/Engine/Selection.antt =====
-- engine/portal/engine/editor/selection_system.cpp: the names that are selected in each scope. The
-- component of a scope is `none` where the scope has none; entities are numbers, and so are names.
pub mod Refinement
pub mod Unique
mod Tests
use portal_framework.Base.{
  ℕ, Bool, true, false, not, Option, none, some, List, [], ◌∷◌, ◌++◌, length, ◌==◌, ◌||◌,
  if◌then◌else◌,
}
use portal_framework.Base.Ordered.{filter}

-- The `SelectionComponent` of each entity.
abbrev pub Scopes : Type 0
Scopes = ℕ → Option (List ℕ)

-- `std::ranges::find(vec, id) != vec.end()`
abbrev pub finds : ℕ → List ℕ → Bool
finds id [] = false
finds id (x ∷ xs) = id == x || finds id xs

abbrev pub with_component : ℕ → Option (List ℕ) → Scopes → Scopes
with_component scope c s e = if scope == e then c else s e

-- `push_back`, unless the name is there.
abbrev pub add_name : ℕ → List ℕ → List ℕ
add_name id ids = if finds id ids then ids else ids ++ (id ∷ [])

abbrev pub add_names : List ℕ → List ℕ → List ℕ
add_names [] ids = ids
add_names (x ∷ xs) ids = add_names xs (add_name x ids)

abbrev pub selected_with : ℕ → Option (List ℕ) → List ℕ
selected_with id none = id ∷ []
selected_with id (some ids) = add_name id ids

unfoldable pub select : ℕ → ℕ → Scopes → Scopes
select id scope s = with_component scope (some (selected_with id (s scope))) s

abbrev pub names : Option (List ℕ) → List ℕ
names none = []
names (some ids) = ids

-- The component is there afterwards, also for no names.
unfoldable pub select_all : List ℕ → ℕ → Scopes → Scopes
select_all ids scope s = with_component scope (some (add_names ids (names (s scope)))) s

unfoldable pub is_selected : ℕ → ℕ → Scopes → Bool
is_selected id scope s = finds id (names (s scope))

unfoldable pub selection_count : ℕ → Scopes → ℕ
selection_count scope s = length (names (s scope))

-- `std::erase`, and the component without names is removed.
abbrev pub keep : List ℕ → Option (List ℕ)
keep [] = none
keep (x ∷ xs) = some (x ∷ xs)

abbrev pub erase_name : ℕ → Option (List ℕ) → Option (List ℕ)
erase_name id none = none
erase_name id (some ids) = keep (filter (λ x. not (x == id)) ids)

-- `deselect` in all scopes, and in one. The name is a value: the source takes a reference, which must
-- not be to a name in the selections.
unfoldable pub deselect_everywhere : ℕ → Scopes → Scopes
deselect_everywhere id s e = erase_name id (s e)

unfoldable pub deselect : ℕ → ℕ → Scopes → Scopes
deselect id scope s = with_component scope (erase_name id (s scope)) s

unfoldable pub deselect_all : ℕ → Scopes → Scopes
deselect_all scope s = with_component scope none s

-- A call.
pub data Call : Type 0 where
  selects : (id scope : ℕ) → Call
  selects_all : (ids : List ℕ) (scope : ℕ) → Call
  deselects : (id scope : ℕ) → Call
  deselects_everywhere : (id : ℕ) → Call
  deselects_all : (scope : ℕ) → Call

abbrev pub perform : Call → Scopes → Scopes
perform (selects id scope) = select id scope
perform (selects_all ids scope) = select_all ids scope
perform (deselects id scope) = deselect id scope
perform (deselects_everywhere id) = deselect_everywhere id
perform (deselects_all scope) = deselect_all scope

abbrev pub perform_all : List Call → Scopes → Scopes
perform_all [] s = s
perform_all (c ∷ cs) s = perform_all cs (perform c s)
