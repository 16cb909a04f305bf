-- ===== src/Engine/Selection/Refinement.antt =====
-- The selections of scopes as sets of names.
use portal_framework.Base.{
  ℕ, ◌≡◌, refl, ap, ◌∙◌, fun_ext, Bool, true, false, not, Option, none, some, List, [], ◌∷◌, ◌++◌,
  ◌==◌, ◌||◌, ◌&&◌, if◌then◌else◌, arith,
}
use portal_framework.Base.Ordered.{filter}
use portal_framework.Engine.Selection.{
  Scopes, finds, with_component, add_name, add_names, selected_with, select, names, select_all,
  is_selected, erase_name, keep, deselect_everywhere, deselect, deselect_all, Call, selects,
  selects_all, deselects, deselects_everywhere, deselects_all, perform, perform_all,
}

-- Sets of names, one for each scope.
abbrev pub Sets : Type 0
Sets = ℕ → ℕ → Bool

-- What a call does to the sets.
abbrev pub effect : Call → Sets → Sets
effect (selects id scope) m e x = if scope == e && x == id then true else m e x
effect (selects_all ids scope) m e x = if scope == e then finds x ids || m e x else m e x
effect (deselects id scope) m e x = if scope == e && x == id then false else m e x
effect (deselects_everywhere id) m e x = if x == id then false else m e x
effect (deselects_all scope) m e x = if scope == e then false else m e x

abbrev pub effects : List Call → Sets → Sets
effects [] m = m
effects (c ∷ cs) m = effects cs (effect c m)

finds-append : (x : ℕ) (xs ys : List ℕ) → finds x (xs ++ ys) ≡ (finds x xs || finds x ys)
finds-append x [] ys = refl
finds-append x (y ∷ xs) ys = ground (arith, finds-append x xs ys)

finds-same : (x y : ℕ) (xs : List ℕ) → (x == y) ≡ true → finds x xs ≡ finds y xs
finds-same x y [] e = refl
finds-same x y (z ∷ xs) e = ground (arith, finds-same x y xs e)

finds-add_name : (x id : ℕ) (ids : List ℕ) → finds x (add_name id ids) ≡ (x == id || finds x ids)
finds-add_name x id ids = ground (arith, finds-append x ids (id ∷ []), finds-same x id ids)

finds-add_names :
    (x : ℕ) (xs ids : List ℕ) → finds x (add_names xs ids) ≡ (finds x xs || finds x ids)
finds-add_names x [] ids = refl
finds-add_names x (y ∷ xs) ids =
    ground (arith, finds-add_names x xs (add_name y ids), finds-add_name x y ids)

finds-filter :
    (x id : ℕ) (ids : List ℕ)
    → finds x (filter (λ y. not (y == id)) ids) ≡ (if x == id then false else finds x ids)
finds-filter x id [] = ground arith
finds-filter x id (y ∷ ys) = ground (arith, finds-filter x id ys)

pub names-keep : (xs : List ℕ) → names (keep xs) ≡ xs
names-keep [] = refl
names-keep (x ∷ xs) = refl

finds-erase_name :
    (x id : ℕ) (c : Option (List ℕ))
    → finds x (names (erase_name id c)) ≡ (if x == id then false else finds x (names c))
finds-erase_name x id none = ground arith
finds-erase_name x id (some ids) =
    ap (finds x) (names-keep (filter (λ y. not (y == id)) ids)) ∙ finds-filter x id ids

finds-selected_with :
    (x id : ℕ) (c : Option (List ℕ)) → finds x (selected_with id c) ≡ (x == id || finds x (names c))
finds-selected_with x id none = refl
finds-selected_with x id (some ids) = finds-add_name x id ids

-- A property of the names of each scope, after one has changed.
with_component-at :
    (x scope e : ℕ) (c : Option (List ℕ)) (s : Scopes)
    → finds x (names (with_component scope c s e))
      ≡ (if scope == e then finds x (names c) else finds x (names (s e)))
with_component-at x scope e c s = ground arith

abbrev pub sets : Scopes → Sets
sets s e x = is_selected x e s

same_scope :
    (x scope e : ℕ) (s : Scopes)
    → (scope == e) ≡ true
    → finds x (names (s scope)) ≡ finds x (names (s e))
same_scope x scope e s eq =
    let same : scope ≡ e = ground arith in ap (λ k. finds x (names (s k))) same

perform-effect : (c : Call) (s : Scopes) (e x : ℕ) → sets (perform c s) e x ≡ effect c (sets s) e x
unfolding is_selected select select_all deselect deselect_everywhere deselect_all
perform-effect (selects id scope) s e x = ground (
  arith,
  with_component-at x scope e (some (selected_with id (s scope))) s,
  finds-selected_with x id (s scope),
  same_scope x scope e s,
)
perform-effect (selects_all ids scope) s e x = ground (
  arith,
  with_component-at x scope e (some (add_names ids (names (s scope)))) s,
  finds-add_names x ids (names (s scope)),
  same_scope x scope e s,
)
perform-effect (deselects id scope) s e x = ground (
  arith,
  with_component-at x scope e (erase_name id (s scope)) s,
  finds-erase_name x id (s scope),
  same_scope x scope e s,
)
perform-effect (deselects_everywhere id) s e x = finds-erase_name x id (s e)
perform-effect (deselects_all scope) s e x = with_component-at x scope e none s

-- Any sequence of calls selects, in each scope, just the names that the same sequence puts into the
-- set of the scope: a selected name is added, a deselected one removed, and nothing else changes.
pub is_selected-perform_all :
    (cs : List Call) (s : Scopes) (e x : ℕ)
    → is_selected x e (perform_all cs s) ≡ effects cs (sets s) e x
is_selected-perform_all [] s e x = refl
is_selected-perform_all (c ∷ cs) s e x =
    let now : sets (perform c s) ≡ effect c (sets s) =
      fun_ext (λ e'. fun_ext (λ x'. perform-effect c s e' x')) in
    is_selected-perform_all cs (perform c s) e x ∙ ap (λ m. effects cs m e x) now
