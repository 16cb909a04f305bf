-- ===== src/Application/ModuleStack.antt =====
-- application/portal/application/modules/module_stack.h and module_stack.cpp: the modules of an
-- application, and the order in which they are called.
-- A module is its address. `dependencies` is `get_dependencies()` of each module, `has_tag` its tags
-- (base_module.h, tags.h). `sort` is `std::ranges::sort` with the levels as keys. An order in which a
-- hash table is iterated is the order of an association list.
pub mod Levels
pub mod Termination
pub mod Build
pub mod Order
mod Tests
use portal_framework.Base.{
  ℕ, zero, suc, ◌+◌, max, Bool, true, false, Option, none, some, List, [], ◌∷◌, ◌++◌, ◌==◌,
  if◌then◌else◌,
}
use portal_framework.Base.Ordered.{filter, reverse}
use portal_framework.Base.Counting.{remove}
use portal_framework.Base.Maps.{lookup, insert}

-- `ModuleTags`, without `None`.
pub data ModuleTags : Type 0 where
  frame_lifecycle update gui_update post_update : ModuleTags

-- What a computation of levels comes to: a value, the exception `Circular dependency detected`, or the
-- end of the fuel.
pub data Outcome {ℓ} (A : Type ℓ) : Type ℓ where
  found : A → Outcome A
  circular : Outcome A
  out_of_fuel : Outcome A

infixl 5 ◌>>=◌
abbrev pub ◌>>=◌ {ℓ κ} : {A : Type ℓ} {B : Type κ} → Outcome A → (A → Outcome B) → Outcome B
found a >>= next = next a
circular >>= next = circular
out_of_fuel >>= next = out_of_fuel

-- `levels` and `visited`, which `compute_module_level` takes by reference.
pub record Progress : Type 0 where
  pub levels : List (ℕ × ℕ)
  pub visited : List ℕ

abbrev pub contains : ℕ → List ℕ → Bool
contains m [] = false
contains m (v ∷ vs) = if v == m then true else contains m vs

-- The loop over the dependencies, whose levels `get` computes. `next_level` is `max_dep_level + 1`:
-- the variable of the code starts at -1.
unfoldable pub level_above :
    (ℕ → Progress → Outcome (ℕ × Progress)) → List ℕ → ℕ → Progress → Outcome (ℕ × Progress)
level_above get [] next_level s = found (next_level, s)
level_above get (dep ∷ deps) next_level s =
    get dep s >>= λ r. level_above get deps (max next_level (r.0 + 1)) r.1

-- `module_levels[m]`
abbrev pub level_of : List (ℕ × ℕ) → ℕ → ℕ
level_of levels m = elim (lookup m levels) [ none ↦ 0 | some level ↦ level ]

-- `dependency_graph[level]`
abbrev pub level_modules : ℕ → List (ℕ × ℕ) → List ℕ
level_modules level [] = []
level_modules level ((m, l) ∷ rest) =
    if l == level then m ∷ level_modules level rest else level_modules level rest

-- `modules`, `dependency_graph` by level, and the modules of each tag.
pub record ModuleStack : Type 0 where
  pub modules : List ℕ
  pub dependency_graph : ℕ → List ℕ
  pub dependency_graph_dirty : Bool
  pub tagged : ModuleTags → List ℕ

abbrev pub create : ModuleStack
create = record {
  modules = [];
  dependency_graph = λ level. [];
  dependency_graph_dirty = false;
  tagged = λ tag. [];
}

-- `add_module<T>(args...)`
unfoldable pub add_module : ℕ → ModuleStack → ModuleStack
add_module m s = record s { modules = s.modules ++ (m ∷ []); dependency_graph_dirty = true }

-- `clean()`: the modules in the order in which they are destroyed, and the stack then.
unfoldable pub clean : ModuleStack → List ℕ × ModuleStack
clean s = (reverse s.modules, record s { modules = [] })

module _ (dependencies : ℕ → List ℕ) where
  -- `compute_module_level(module, levels, visited)`, on fuel. A module with no dependencies gets the
  -- level 0 that the loop starts with.
  unfoldable pub compute_module_level : ℕ → ℕ → Progress → Outcome (ℕ × Progress)
  compute_module_level zero m s = out_of_fuel
  compute_module_level (suc fuel) m s =
      let rest =
        level_above (compute_module_level fuel) (dependencies m) 0
          (record s { visited = m ∷ s.visited })
        >>= λ r.
            found
              (r.0, record { levels = insert m r.0 r.1.levels; visited = remove m r.1.visited }) in
      elim (lookup m s.levels) [
        | some level ↦ found (level, s)
        | none ↦ if contains m s.visited then circular else rest
      ]

  -- The loop over the modules.
  unfoldable pub compute_levels : ℕ → List ℕ → Progress → Outcome Progress
  compute_levels fuel [] s = found s
  compute_levels fuel (m ∷ ms) s = compute_module_level fuel m s >>= λ r. compute_levels fuel ms r.1

  module _ (has_tag : ℕ → ModuleTags → Bool) (sort : (ℕ → ℕ) → List ℕ → List ℕ) where
    -- What `build_dependency_graph` does with the levels.
    unfoldable pub arrange : List (ℕ × ℕ) → ModuleStack → ModuleStack
    arrange levels s =
        let sorted = sort (level_of levels) s.modules in
        record s {
          modules = sorted;
          dependency_graph = λ level. level_modules level levels;
          tagged = λ tag. filter (λ m. has_tag m tag) sorted;
        }

    -- `build_dependency_graph()`, on fuel for each module.
    unfoldable pub build_dependency_graph : ℕ → ModuleStack → Outcome ModuleStack
    build_dependency_graph fuel s =
        compute_levels fuel s.modules (record { levels = []; visited = [] }) >>= λ p.
        found (arrange p.levels s)

-- The modules that a call of each tag reaches, in order: `begin_frame` and `end_frame`, and `update`,
-- `gui_update` and `post_update`.
unfoldable pub begin_frame : ModuleStack → List ℕ
begin_frame s = s.tagged frame_lifecycle

unfoldable pub end_frame : ModuleStack → List ℕ
end_frame s = reverse (s.tagged frame_lifecycle)

unfoldable pub update_modules : ModuleTags → ModuleStack → List ℕ
update_modules tag s = s.tagged tag
