-- ===== src/Engine/Resources/History.antt =====
-- The jobs of a registry.
use portal_framework.Base.{ℕ, ◌≡◌, false, Option, none, some, ◌==◌, if◌then◌else◌}
use portal_framework.Engine.Resources.{
  ResourceDirtyFlags, set_dirty, get_dirty, SourceMetadata, ResourceData, ResourceRegistry, Phase,
  testing, load_resource, is_known, store, create,
}

-- The job with a number: which resource it loads, and where it is.
pub record System : Type 0 where
  pub registry : ResourceRegistry
  pub job : ℕ → Option (ℕ × Phase)

abbrev pub put_job : ℕ → ℕ × Phase → (ℕ → Option (ℕ × Phase)) → ℕ → Option (ℕ × Phase)
put_job j job jobs i = if j == i then some job else jobs i

-- `create_resource` and `create_resource_immediate` dispatch job `j` if the resource is not known.
unfoldable pub create_resource : ℕ → ℕ → System → System
unfolding is_known
create_resource j id s =
    if is_known id s.registry then s else record s { job = put_job j (id, testing) s.job }

unfoldable pub advance :
    (ℕ → Option SourceMetadata) → (SourceMetadata → ResourceData) → ℕ → ℕ × Phase → System → System
unfolding load_resource
advance find load j (id, phase) s =
    let (phase', r) = load_resource find load id phase s.registry in
    record { registry = r; job = put_job j (id, phase') s.job }

module _ (find : ℕ → Option SourceMetadata) (load : SourceMetadata → ResourceData) where
  -- Other calls of `load_direct` and `allocate` store resources at any time. The dirty bits are asked
  -- for and set where there is an entry; see Engine.Resources.Dirty for the calls where there is none.
  pub data Step (s : System) : System → Type 0 where
    creates : (j id : ℕ) → s.job j ≡ none → Step s (create_resource j id s)
    advances : (j : ℕ) (job : ℕ × Phase) → s.job j ≡ some job → Step s (advance find load j job s)
    stores :
        (id x : ℕ)
        → Step s (record s {
          registry = store id (record { resource = some x; dirty = λ bit. false }) s.registry;
        })
    marks :
        (id : ℕ) (flags : ResourceDirtyFlags) (entry : ResourceData)
        → s.registry.resources id ≡ some entry
        → Step s (record s { registry = set_dirty id flags s.registry })
    asks :
        (id : ℕ) (entry : ResourceData)
        → s.registry.resources id ≡ some entry
        → Step s (record s { registry = (get_dirty id s.registry).1 })

  pub data Reach : System → Type 0 where
    starts : Reach (record { registry = create; job = λ j. none })
    next : {s t : System} → Reach s → Step s t → Reach t
