-- ===== src/Engine/Selection/Unique.antt =====
-- No name is selected twice in a scope.
use portal_framework.Base.{
  ℕ, ◌≤◌, ◌≡◌, refl, ap, Bool, false, not, Option, none, some, List, [], ◌∷◌, ◌==◌, arith,
}
use portal_framework.Base.Ordered.{filter}
use portal_framework.Base.Counting.{count, count-append}
use portal_framework.Engine.Selection.{
  Scopes, finds, with_component, add_name, add_names, selected_with, select, names, select_all,
  erase_name, keep, deselect_everywhere, deselect, deselect_all, Call, selects, selects_all,
  deselects, deselects_everywhere, deselects_all, perform, perform_all,
}
use portal_framework.Engine.Selection.Refinement.{names-keep}

abbrev pub IsUnique : List ℕ → Type 0
IsUnique ids = (x : ℕ) → count x ids ≤ 1

count-finds : (x : ℕ) (ids : List ℕ) → finds x ids ≡ false → count x ids ≡ 0
count-finds x [] e = refl
count-finds x (y ∷ ys) e = ground (arith, count-finds x ys)

count-same : (x y : ℕ) (ids : List ℕ) → x ≡ y → count x ids ≡ count y ids
count-same x y ids e = ap (λ k. count k ids) e

add_name-IsUnique : (id : ℕ) (ids : List ℕ) → IsUnique ids → IsUnique (add_name id ids)
add_name-IsUnique id ids u x =
    ground (arith, u x, count-append x ids (id ∷ []), count-finds id ids, count-same x id ids)

add_names-IsUnique : (xs ids : List ℕ) → IsUnique ids → IsUnique (add_names xs ids)
add_names-IsUnique [] ids u = u
add_names-IsUnique (x ∷ xs) ids u =
    add_names-IsUnique xs (add_name x ids) (add_name-IsUnique x ids u)

count-filter : (x : ℕ) (test : ℕ → Bool) (ids : List ℕ) → count x (filter test ids) ≤ count x ids
count-filter x test [] = omega arith
count-filter x test (y ∷ ys) = ground (arith, count-filter x test ys)

erase_name-IsUnique :
    (id : ℕ) (c : Option (List ℕ)) → IsUnique (names c) → IsUnique (names (erase_name id c))
erase_name-IsUnique id none u x = u x
erase_name-IsUnique id (some ids) u x =
    let kept : List ℕ = filter (λ y. not (y == id)) ids in
    let same : count x (names (keep kept)) ≡ count x kept = ap (count x) (names-keep kept) in
    omega (arith, same, count-filter x (λ y. not (y == id)) ids, u x)

selected_with-IsUnique :
    (id : ℕ) (c : Option (List ℕ)) → IsUnique (names c) → IsUnique (selected_with id c)
selected_with-IsUnique id none u x = ground arith
selected_with-IsUnique id (some ids) u x = add_name-IsUnique id ids u x

with_component-IsUnique :
    (scope : ℕ) (c : Option (List ℕ)) (s : Scopes)
    → IsUnique (names c)
    → ((e : ℕ) → IsUnique (names (s e)))
    → (e : ℕ) → IsUnique (names (with_component scope c s e))
with_component-IsUnique scope c s h hs e x = ground (arith, h x, hs e x)

perform-IsUnique :
    (c : Call) (s : Scopes)
    → ((e : ℕ) → IsUnique (names (s e)))
    → (e : ℕ) → IsUnique (names (perform c s e))
unfolding select select_all deselect deselect_everywhere deselect_all
perform-IsUnique (selects id scope) s h =
    with_component-IsUnique scope (some (selected_with id (s scope))) s
      (selected_with-IsUnique id (s scope) (h scope)) h
perform-IsUnique (selects_all ids scope) s h =
    with_component-IsUnique scope (some (add_names ids (names (s scope)))) s
      (add_names-IsUnique ids (names (s scope)) (h scope)) h
perform-IsUnique (deselects id scope) s h =
    with_component-IsUnique scope (erase_name id (s scope)) s
      (erase_name-IsUnique id (s scope) (h scope)) h
perform-IsUnique (deselects_everywhere id) s h = λ e. erase_name-IsUnique id (s e) (h e)
perform-IsUnique (deselects_all scope) s h =
    with_component-IsUnique scope none s (λ x. omega arith) h

-- Where no name is selected twice in a scope, no sequence of calls makes one be.
pub perform_all-IsUnique :
    (cs : List Call) (s : Scopes)
    → ((e : ℕ) → IsUnique (names (s e)))
    → (e : ℕ) → IsUnique (names (perform_all cs s e))
perform_all-IsUnique [] s h = h
perform_all-IsUnique (c ∷ cs) s h = perform_all-IsUnique cs (perform c s) (perform-IsUnique c s h)
