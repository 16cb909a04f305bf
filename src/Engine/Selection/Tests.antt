-- ===== src/Engine/Selection/Tests.antt =====
-- Calls on the selections of two scopes.
use portal_framework.Base.{◌≡◌, refl, none, List, [], ◌∷◌, ◌≤◌, arith}
use portal_framework.Base.Counting.{count}
use portal_framework.Engine.Selection.{
  Scopes, is_selected, Call, selects, selects_all, deselects, deselects_everywhere, deselects_all,
  perform_all, names, selection_count, select, select_all, deselect, deselect_everywhere,
  deselect_all,
}
use portal_framework.Engine.Selection.Refinement.{effects, sets, is_selected-perform_all}
use portal_framework.Engine.Selection.Unique.{perform_all-IsUnique}

abbrev no_selection : Scopes
no_selection e = none

abbrev calls : List Call
calls =
    selects 5 1
    ∷ selects_all (5 ∷ 6 ∷ 6 ∷ []) 1
    ∷ selects 6 2
    ∷ deselects 5 1
    ∷ deselects_everywhere 7
    ∷ deselects_all 2
    ∷ []

is_selected-perform_all_example :
    is_selected 6 1 (perform_all calls no_selection) ≡ effects calls (sets no_selection) 1 6
is_selected-perform_all_example = is_selected-perform_all calls no_selection 1 6

perform_all-IsUnique_example : count 6 (names (perform_all calls no_selection 1)) ≤ 1
perform_all-IsUnique_example = perform_all-IsUnique calls no_selection (λ e x. omega arith) 1 6

-- No name is there twice.
selection_count-calls : selection_count 1 (perform_all calls no_selection) ≡ 1
unfolding selection_count select select_all deselect deselect_everywhere deselect_all
selection_count-calls = refl
