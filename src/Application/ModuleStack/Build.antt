-- ===== src/Application/ModuleStack/Build.antt =====
-- `build_dependency_graph` either finds the levels of all modules, or there is a cycle.
use portal_framework.Base.{
  ℕ, suc, ◌+◌, ◌≤◌, ◌<◌, ◌≡◌, ◌≢◌, refl, sym, ap, ◌∙◌, subst, max, Bool, some, inl, inr, ◌⊎◌, List,
  [], ◌∷◌, length, arith, Option-cases, ℕ_discrete,
}
use portal_framework.Base.Counting.{count}
use portal_framework.Base.Maps.{lookup}
use portal_framework.Application.ModuleStack.{
  Outcome, found, circular, out_of_fuel, ◌>>=◌, Progress, contains, compute_module_level,
  compute_levels, level_of, ModuleStack, ModuleTags, arrange, build_dependency_graph,
}
use portal_framework.Application.ModuleStack.Levels.{
  >>=-eq-found, found-inj, Kept, Kept-refl, Kept-trans, compute_module_level-Kept, IsLevelled,
  height_from, height_from-known,
}
use portal_framework.Application.ModuleStack.Termination.{
  Outcome-cases, IsClosed, IsRank, compute-ne-out_of_fuel, compute-ne-circular, unvisited,
  unvisited-le-length,
}

-- A level is not below what it was raised from, and above the levels that raised it.
height_from-le :
    (levels : List (ℕ × ℕ)) (ds : List ℕ) (n level : ℕ)
    → height_from levels n ds ≡ some level
    → n ≤ level
height_from-le levels [] n level e = ground arith
height_from-le levels (d ∷ ds) n level e = elim (Option-cases (lookup d levels)) [
  | inl missing ↦ ground (arith, missing)
  | inr (l, known) ↦ omega (
    arith,
    height_from-le levels ds (max n (l + 1)) level
        (sym (height_from-known levels d ds n l known) ∙ e),
  )
]

height_from-lt :
    (levels : List (ℕ × ℕ)) (ds : List ℕ) (n level d : ℕ)
    → height_from levels n ds ≡ some level
    → count d ds ≢ 0
    → level_of levels d < level
height_from-lt levels [] n level d e h = absurd (h refl)
height_from-lt levels (k ∷ ds) n level d e h = elim (Option-cases (lookup k levels)) [
  | inl missing ↦ ground (arith, missing)
  | inr (l, known) ↦
      let rest = sym (height_from-known levels k ds n l known) ∙ e in
      elim (ℕ_discrete d k) [
        | yes same ↦
            let value : level_of levels k ≡ l = ground (arith, known) in
            omega (
              arith,
              value,
              ap (level_of levels) same,
              height_from-le levels ds (max n (l + 1)) level rest,
            )
        | no ne ↦
            height_from-lt levels ds (max n (l + 1)) level d rest (λ z. h (ground (arith, z, ne)))
      ]
]

module _ (dependencies : ℕ → List ℕ) where
  compute_levels-Kept :
      (fuel : ℕ) (ms : List ℕ) (s t : Progress)
      → compute_levels dependencies fuel ms s ≡ found t
      → Kept dependencies s t
        × ((m : ℕ) → count m ms ≢ 0 → (level : ℕ) × (lookup m t.levels ≡ some level))
  unfolding compute_levels
  compute_levels-Kept fuel [] s t e =
      (subst (Kept dependencies s) (found-inj e) (Kept-refl dependencies s), λ m h. absurd (h refl))
  compute_levels-Kept fuel (k ∷ ms) s t e =
      let ((l, s1), (first, rest)) =
        >>=-eq-found (compute_module_level dependencies fuel k s) _ e in
      let (kept, known) = compute_module_level-Kept dependencies fuel k s l s1 first in
      let (kept', all) = compute_levels-Kept fuel ms s1 t rest in
      (
        Kept-trans dependencies kept kept',
        λ m h. elim (ℕ_discrete m k) [
          | yes same ↦ (l, ap (λ i. lookup i t.levels) same ∙ kept'.extends k l known)
          | no ne ↦ all m (λ z. h (ground (arith, z, ne)))
        ],
      )

  -- With calls that neither run out of fuel nor find a cycle, all levels are found.
  compute_levels-found :
      (fuel : ℕ) (ms : List ℕ) (s : Progress)
      → ((m : ℕ) (t : Progress)
          → count m ms ≢ 0
          → t.visited ≡ s.visited
          → compute_module_level dependencies fuel m t ≢ out_of_fuel)
      → (compute_levels dependencies fuel ms s ≡ circular)
        ⊎ ((t : Progress) × (compute_levels dependencies fuel ms s ≡ found t))
  unfolding compute_levels
  compute_levels-found fuel [] s h = inr (s, refl)
  compute_levels-found fuel (k ∷ ms) s h =
      elim (Outcome-cases (compute_module_level dependencies fuel k s)) [
        | inl c ↦ inl (ap (λ r. r >>= next) c)
        | inr (inl o) ↦ absurd (h k s (ground arith) refl o)
        | inr (inr ((l, s1), f)) ↦
            let kept = (compute_module_level-Kept dependencies fuel k s l s1 f).0 in
            elim (compute_levels-found fuel ms s1
              (λ m t c same. h m t (ground (arith, c)) (same ∙ kept.visited))) [
                | inl c ↦ inl (ap (λ r. r >>= next) f ∙ c)
                | inr (t, g) ↦ inr (t, ap (λ r. r >>= next) f ∙ g)
              ]
      ]
    where
      next : ℕ × Progress → Outcome Progress
      next r = compute_levels dependencies fuel ms r.1

  -- A cycle is found only where there is one.
  compute_levels-ne-circular :
      (us : List ℕ) (rank : ℕ → ℕ) (fuel : ℕ) (ms : List ℕ) (s : Progress)
      → IsClosed dependencies us
      → IsRank dependencies us rank
      → ((m : ℕ) → count m ms ≢ 0 → count m us ≢ 0)
      → s.visited ≡ []
      → compute_levels dependencies fuel ms s ≢ circular
  unfolding compute_levels
  compute_levels-ne-circular us rank fuel [] s closed ranked sub fresh e = cc
  compute_levels-ne-circular us rank fuel (k ∷ ms) s closed ranked sub fresh e =
      let not_here =
        compute-ne-circular dependencies us rank fuel k s closed ranked (sub k (ground arith))
          (λ v c. cc (sym (ap (contains v) fresh) ∙ c)) in
      elim (Outcome-cases (compute_module_level dependencies fuel k s)) [
        | inl c ↦ not_here c
        | inr (inl o) ↦ cc (sym (ap (λ r. r >>= next) o) ∙ e)
        | inr (inr ((l, s1), f)) ↦
            let kept = (compute_module_level-Kept dependencies fuel k s l s1 f).0 in
            compute_levels-ne-circular us rank fuel ms s1 closed ranked
              (λ m c. sub m (ground (arith, c))) (kept.visited ∙ fresh)
              (sym (ap (λ r. r >>= next) f) ∙ e)
      ]
    where
      next : ℕ × Progress → Outcome Progress
      next r = compute_levels dependencies fuel ms r.1

  abbrev nothing_known : Progress
  nothing_known = record { levels = []; visited = [] }

  -- Levels that are all known, and each above those of the dependencies.
  pub record IsComplete (ms : List ℕ) (levels : List (ℕ × ℕ)) : Type 0 where
    pub known : (m : ℕ) → count m ms ≢ 0 → (level : ℕ) × (lookup m levels ≡ some level)
    pub levelled : IsLevelled dependencies levels
    pub ranked : IsRank dependencies ms (level_of levels)

  pub complete :
      (fuel : ℕ) (ms : List ℕ) (t : Progress)
      → compute_levels dependencies fuel ms nothing_known ≡ found t
      → IsComplete ms t.levels
  complete fuel ms t e =
      let (kept, all) = compute_levels-Kept fuel ms nothing_known t e in
      let levelled = kept.levelled (λ m level h. cc) in
      record {
        known = all;
        levelled = levelled;
        ranked = λ m d inside dep.
            let (level, known) = all m inside in
            let value : level_of t.levels m ≡ level = ground (arith, known) in
            omega (
              arith,
              value,
              height_from-lt t.levels (dependencies m) 0 level d (levelled m level known) dep,
            );
      }

  module _ (has_tag : ℕ → ModuleTags → Bool) (sort : (ℕ → ℕ) → List ℕ → List ℕ) where
    -- For a stack whose modules depend on modules of the stack only, with fuel for one call more than
    -- there are modules, `build_dependency_graph` ends. Either it arranges the modules by levels, each
    -- of which is one more than the greatest level of the dependencies, or it throws, and then there
    -- is a cycle: no numbering puts every module above its dependencies.
    pub build_dependency_graph-decides :
        (s : ModuleStack)
        → IsClosed dependencies s.modules
        → let r = build_dependency_graph dependencies has_tag sort (suc (length s.modules)) s in
          ((levels : List (ℕ × ℕ)) × (r ≡ found (arrange dependencies has_tag sort levels s))
            × IsComplete s.modules levels)
          ⊎ ((r ≡ circular) × ((rank : ℕ → ℕ) → ¬ IsRank dependencies s.modules rank))
    unfolding build_dependency_graph
    build_dependency_graph-decides s closed =
        let ms = s.modules in
        let fuel = suc (length ms) in
        let next : Progress → Outcome ModuleStack =
          λ p. found (arrange dependencies has_tag sort p.levels s) in
        let enough = unvisited-le-length ms [] in
        elim (compute_levels-found fuel ms nothing_known (λ m t inside same.
          compute-ne-out_of_fuel dependencies ms fuel m t closed inside
            (subst (λ v. unvisited ms v < fuel) (sym same) (omega (arith, enough))))) [
              | inl c ↦ inr (
                ap (λ r. r >>= next) c,
                λ rank ranked.
                    compute_levels-ne-circular ms rank fuel ms nothing_known closed ranked
                      (λ m i. i) refl c,
              )
              | inr (t, f) ↦ inl (t.levels, ap (λ r. r >>= next) f, complete fuel ms t f)
            ]
