-- ===== src/Application/ModuleStack/Tests.antt =====
-- A window, an input module above it and an editor above both; an insertion sort; and a cycle.
use portal_framework.Base.{
  Bool-cases, ℕ, ◌≤◌, ◌≡◌, refl, Bool, true, false, inl, inr, ◌⊎◌, List, [], ◌∷◌, arith, leb, ◌==◌,
  if◌then◌else◌,
}
use portal_framework.Base.Counting.{count}
use portal_framework.Base.Ordered.{Ordered, Each, Each-map}
use portal_framework.Application.ModuleStack.{
  found, circular, ModuleStack, ModuleTags, create, arrange, build_dependency_graph,
  compute_module_level, compute_levels, level_above, end_frame,
}
use portal_framework.Application.ModuleStack.Termination.{IsClosed, IsRank}
use portal_framework.Application.ModuleStack.Build.{IsComplete, build_dependency_graph-decides}
use portal_framework.Application.ModuleStack.Order.{
  IsSort, IsInOrder, build_dependency_graph-Ordered,
}

abbrev insert_by : (ℕ → ℕ) → ℕ → List ℕ → List ℕ
insert_by key x [] = x ∷ []
insert_by key x (y ∷ ys) =
    let rest = insert_by key x ys in if leb (key x) (key y) then x ∷ y ∷ ys else y ∷ rest

abbrev sort_by : (ℕ → ℕ) → List ℕ → List ℕ
sort_by key [] = []
sort_by key (x ∷ xs) = insert_by key x (sort_by key xs)

count-insert_by :
    (key : ℕ → ℕ) (a x : ℕ) (xs : List ℕ) → count a (insert_by key x xs) ≡ count a (x ∷ xs)
count-insert_by key a x [] = refl
count-insert_by key a x (y ∷ ys) = ground (arith, count-insert_by key a x ys)

count-sort_by : (key : ℕ → ℕ) (a : ℕ) (xs : List ℕ) → count a (sort_by key xs) ≡ count a xs
count-sort_by key a [] = refl
count-sort_by key a (x ∷ xs) =
    ground (arith, count-insert_by key a x (sort_by key xs), count-sort_by key a xs)

insert_by-Each :
    (P : ℕ → Type 0) (key : ℕ → ℕ) (x : ℕ) (xs : List ℕ)
    → P x
    → Each P xs
    → Each P (insert_by key x xs)
insert_by-Each P key x [] p all = (p, tt)
insert_by-Each P key x (y ∷ ys) p (q, all) =
    elim (leb (key x) (key y)) as (λ b. Each P (if b then x ∷ y ∷ ys else y ∷ insert_by key x ys)) [
      | true ↦ (p, (q, all))
      | false ↦ (q, insert_by-Each P key x ys p all)
    ]

insert_by-Ordered :
    (key : ℕ → ℕ) (x : ℕ) (xs : List ℕ)
    → Ordered (λ a b. key a ≤ key b) xs
    → Ordered (λ a b. key a ≤ key b) (insert_by key x xs)
insert_by-Ordered key x [] o = (tt, tt)
insert_by-Ordered key x (y ∷ ys) (p, o) = elim (Bool-cases (leb (key x) (key y))) [
  | inl e ↦
      let le : key x ≤ key y = ground (arith, e) in
      rw e ((le, Each-map ys (λ b h. omega (arith, le, h)) p), (p, o))
  | inr e ↦
      let le : key y ≤ key x = ground (arith, e) in
      rw e (insert_by-Each (λ b. key y ≤ key b) key x ys le p, insert_by-Ordered key x ys o)
]

sort_by-Ordered : (key : ℕ → ℕ) (xs : List ℕ) → Ordered (λ a b. key a ≤ key b) (sort_by key xs)
sort_by-Ordered key [] = tt
sort_by-Ordered key (x ∷ xs) = insert_by-Ordered key x (sort_by key xs) (sort_by-Ordered key xs)

sort_by-IsSort : IsSort sort_by
sort_by-IsSort = record { counts = count-sort_by; sorted = sort_by-Ordered }

-- 1 is the window, 2 the input, 3 the editor.
abbrev needs : ℕ → List ℕ
needs m = if m == 2 then 1 ∷ [] else if m == 3 then 2 ∷ 1 ∷ [] else []

abbrev every_tag : ℕ → ModuleTags → Bool
every_tag m tag = true

abbrev unsorted : ModuleStack
unsorted = record create { modules = 3 ∷ 1 ∷ 2 ∷ [] }

abbrev levels : List (ℕ × ℕ)
levels = (1, 0) ∷ (2, 1) ∷ (3, 2) ∷ []

build-unsorted :
    build_dependency_graph needs every_tag sort_by 4 unsorted
    ≡ found (arrange needs every_tag sort_by levels unsorted)
unfolding build_dependency_graph compute_levels compute_module_level level_above
build-unsorted = refl

end_frame-unsorted : end_frame (arrange needs every_tag sort_by levels unsorted) ≡ 3 ∷ 2 ∷ 1 ∷ []
unfolding end_frame arrange
end_frame-unsorted = refl

build_dependency_graph-Ordered_example :
    ((m : ℕ)
      → count m (arrange needs every_tag sort_by levels unsorted).modules
        ≡ count m unsorted.modules)
    × IsInOrder needs every_tag sort_by (arrange needs every_tag sort_by levels unsorted)
build_dependency_graph-Ordered_example =
    build_dependency_graph-Ordered needs every_tag sort_by 4 unsorted
      (arrange needs every_tag sort_by levels unsorted) sort_by-IsSort build-unsorted

-- Two modules that depend on each other.
abbrev needs_each_other : ℕ → List ℕ
needs_each_other m = if m == 1 then 2 ∷ [] else if m == 2 then 1 ∷ [] else []

abbrev pair : ModuleStack
pair = record create { modules = 1 ∷ 2 ∷ [] }

build-pair : build_dependency_graph needs_each_other every_tag sort_by 3 pair ≡ circular
unfolding build_dependency_graph compute_levels compute_module_level level_above
build-pair = refl

unsorted-IsClosed : IsClosed needs unsorted.modules
unsorted-IsClosed m d inside dep = ground (arith, inside, dep)

build_dependency_graph-decides_example :
    let r = build_dependency_graph needs every_tag sort_by 4 unsorted in
    ((known : List (ℕ × ℕ)) × (r ≡ found (arrange needs every_tag sort_by known unsorted))
      × IsComplete needs unsorted.modules known)
    ⊎ ((r ≡ circular) × ((rank : ℕ → ℕ) → ¬ IsRank needs unsorted.modules rank))
build_dependency_graph-decides_example =
    build_dependency_graph-decides needs every_tag sort_by unsorted unsorted-IsClosed
