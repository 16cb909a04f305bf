-- ===== src/Application/ModuleStack/Order.antt =====
-- The order in which the modules of a built stack are called and destroyed.
use portal_framework.Base.{
  ℕ, ◌≤◌, ◌≡◌, ◌≢◌, sym, ap, ◌∙◌, subst, Bool, List, [], ◌∷◌, arith, ℕ_discrete,
}
use portal_framework.Base.Counting.{count}
use portal_framework.Base.Ordered.{Ordered, Each-map, Ordered-filter, Ordered-reverse}
use portal_framework.Application.ModuleStack.{
  found, compute_levels, level_of, ModuleStack, ModuleTags, frame_lifecycle, arrange,
  build_dependency_graph, begin_frame, end_frame, update_modules, clean,
}
use portal_framework.Application.ModuleStack.Levels.{>>=-eq-found, found-inj}
use portal_framework.Application.ModuleStack.Build.{IsComplete, complete}

-- What `std::ranges::sort` promises: the same elements, in the order of their keys.
pub record IsSort (sort : (ℕ → ℕ) → List ℕ → List ℕ) : Type 0 where
  pub counts : (key : ℕ → ℕ) (a : ℕ) (xs : List ℕ) → count a (sort key xs) ≡ count a xs
  pub sorted : (key : ℕ → ℕ) (xs : List ℕ) → Ordered (λ x y. key x ≤ key y) (sort key xs)

-- A statement about pairs that holds of elements of the list.
Ordered-counted :
    {R S : ℕ → ℕ → Type 0} (xs : List ℕ)
    → ((x y : ℕ) → count x xs ≢ 0 → R x y → S x y)
    → Ordered R xs
    → Ordered S xs
Ordered-counted [] h o = tt
Ordered-counted (x ∷ xs) h (p, o) = (
  Each-map xs (λ y. h x y (ground arith)) p,
  Ordered-counted xs (λ y z c. h y z (ground (arith, c))) o,
)

module _ (dependencies : ℕ → List ℕ) (has_tag : ℕ → ModuleTags → Bool)
    (sort : (ℕ → ℕ) → List ℕ → List ℕ) where
  -- `x` does not depend on `y`.
  abbrev pub Independent : ℕ → ℕ → Type 0
  Independent x y = count y (dependencies x) ≡ 0

  abbrev pub Inverse : ℕ → ℕ → Type 0
  Inverse x y = Independent y x

  arranged :
      (levels : List (ℕ × ℕ)) (ms : List ℕ)
      → IsSort sort
      → IsComplete dependencies ms levels
      → Ordered Independent (sort (level_of levels) ms)
  arranged levels ms laws c =
      Ordered-counted (sort (level_of levels) ms)
        (λ x y inside le. elim (ℕ_discrete (count y (dependencies x)) 0) [
          | yes z ↦ z
          | no dep ↦
              let lower = c.ranked x y (λ z. inside (laws.counts (level_of levels) x ms ∙ z)) dep in
              absurd (omega (arith, lower, le))
        ])
        (laws.sorted (level_of levels) ms)

  build-found :
      (fuel : ℕ) (s t : ModuleStack)
      → build_dependency_graph dependencies has_tag sort fuel s ≡ found t
      → (levels : List (ℕ × ℕ)) × (IsComplete dependencies s.modules levels
          × (arrange dependencies has_tag sort levels s ≡ t))
  unfolding build_dependency_graph
  build-found fuel s t e =
      let (p, (first, rest)) =
        >>=-eq-found
          (compute_levels dependencies fuel s.modules (record { levels = []; visited = [] })) _ e in
      (p.levels, (complete dependencies fuel s.modules p first, found-inj rest))

  abbrev pub IsInOrder : ModuleStack → Type 0
  IsInOrder t =
      Ordered Independent t.modules
      × Ordered Independent (begin_frame t)
      × ((tag : ModuleTags) → Ordered Independent (update_modules tag t))
      × Ordered Inverse (end_frame t)
      × Ordered Inverse (clean t).0

  -- A stack that is built has the modules that it had, with none before one that it depends on; so the
  -- calls of a frame reach a module after those it depends on, and `end_frame` and the destruction
  -- reach it before them. `sort` sorts.
  pub build_dependency_graph-Ordered :
      (fuel : ℕ) (s t : ModuleStack)
      → IsSort sort
      → build_dependency_graph dependencies has_tag sort fuel s ≡ found t
      → ((m : ℕ) → count m t.modules ≡ count m s.modules) × IsInOrder t
  unfolding arrange begin_frame end_frame update_modules clean
  build_dependency_graph-Ordered fuel s t laws e =
      let (levels, (c, same)) = build-found fuel s t e in
      let whole = arranged levels s.modules laws c in
      let sorted = sort (level_of levels) s.modules in
      let tagged =
        λ (tag : ModuleTags). Ordered-filter Independent (λ m. has_tag m tag) sorted whole in
      (
        λ m.
            ap (λ (r : ModuleStack). count m r.modules) (sym same)
            ∙ laws.counts (level_of levels) m s.modules,
        subst IsInOrder same (
          whole,
          tagged frame_lifecycle,
          tagged,
          Ordered-reverse Independent _ (tagged frame_lifecycle),
          Ordered-reverse Independent sorted whole,
        ),
      )
