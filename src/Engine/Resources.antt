-- ===== src/Engine/Resources.antt =====
-- engine/portal/engine/resources/resource_registry.cpp and resource_registry.h: which resources are
-- loaded, being loaded, or in error. The job of `load_resource` is cut where it takes the lock, so that
-- the jobs of several threads interleave. `find` is the lookup of the database, and `load` that of the
-- loader that the factory gives for metadata; both are virtual functions. A resource is its address.
pub mod History
pub mod Moves
pub mod Kept
pub mod Settled
pub mod Stuck
pub mod Dirty
mod Tests
use portal_framework.Base.{
  ℕ, ◌<◌, ◌≡◌, Bool, true, false, not, ◌||◌, Option, none, some, ◌==◌, if◌then◌else◌,
}

-- The states that `get_resource` answers with.
pub data ResourceState : Type 0 where
  pending error unloaded missing : ResourceState

-- The dirty bits of a resource: which are set.
abbrev pub ResourceDirtyFlags : Type 0
ResourceDirtyFlags = ℕ → Bool

abbrev pub clean : ResourceDirtyFlags
clean bit = false

pub record ResourceData : Type 0 where
  pub resource : Option ℕ
  pub dirty : ResourceDirtyFlags

-- What `operator[]` of the map makes for a new key.
abbrev pub empty_data : ResourceData
empty_data = record { resource = none; dirty = clean }

-- `composite` is the resource that a source `composite://` names, hashed.
pub record SourceMetadata : Type 0 where
  pub resource_id : ℕ
  pub composite : Option ℕ

pub record ResourceRegistry : Type 0 where
  pub resources : ℕ → Option ResourceData
  pub pending_resources : ℕ → Bool
  pub errored_resources : ℕ → Bool

abbrev pub create : ResourceRegistry
create = record {
  resources = λ id. none;
  pending_resources = λ id. false;
  errored_resources = λ id. false;
}

abbrev pub is_some {ℓ} : {A : Type ℓ} → Option A → Bool
is_some none = false
is_some (some a) = true

-- What `std::expected` holds: a resource, which may be null, or a state.
pub data Answer : Type 0 where
  got : Option ℕ → Answer
  unexpected : ResourceState → Answer

unfoldable pub get_resource : (ℕ → Option SourceMetadata) → ℕ → ResourceRegistry → Answer
get_resource find id r = elim (r.resources id) [
  | some entry ↦ got entry.resource
  | none ↦
      if r.pending_resources id
      then unexpected pending
      else if r.errored_resources id
      then unexpected error
      else if is_some (find id)
      then unexpected unloaded
      else unexpected missing
]

-- The test that `create_resource` and `load_resource` begin with: the resource is there, or a job is
-- to load it.
unfoldable pub is_known : ℕ → ResourceRegistry → Bool
is_known id r = r.pending_resources id || is_some (r.resources id)

-- `resources[id] = data`, in `load_direct` and `allocate`.
unfoldable pub store : ℕ → ResourceData → ResourceRegistry → ResourceRegistry
store id entry r = record r { resources = λ j. if id == j then some entry else r.resources j }

unfoldable pub insert_pending : ℕ → ResourceRegistry → ResourceRegistry
insert_pending id r = record r {
  pending_resources = λ j. if id == j then true else r.pending_resources j;
}

unfoldable pub erase_pending : ℕ → ResourceRegistry → ResourceRegistry
erase_pending id r = record r {
  pending_resources = λ j. if id == j then false else r.pending_resources j;
}

-- The end of a load that failed.
unfoldable pub fail : ℕ → ResourceRegistry → ResourceRegistry
unfolding erase_pending
fail id r =
    erase_pending id
      (record r { errored_resources = λ j. if id == j then true else r.errored_resources j })

-- Where the job of `load_resource(id)` is: at its test; before it takes the lock to insert `id`;
-- before the lookup in the database; with the metadata to load; behind `load_direct`; done, or ended by
-- the exception of `value()`.
pub data Phase : Type 0 where
  testing inserting searching : Phase
  loading : SourceMetadata → Phase
  loaded : SourceMetadata → Bool → Phase
  ended failed : Phase

-- The metadata of the composite resource, where there is one.
abbrev pub resolve : (ℕ → Option SourceMetadata) → SourceMetadata → Phase
resolve find meta = elim meta.composite [
  | none ↦ loading meta
  | some id ↦ elim (find id) [ none ↦ failed | some whole ↦ loading whole ]
]

-- One step of the job of `load_resource(id)`.
module _ (find : ℕ → Option SourceMetadata) (load : SourceMetadata → ResourceData) where
  -- `load_direct(meta, source)`
  unfoldable pub load_direct : SourceMetadata → ResourceRegistry → Bool × ResourceRegistry
  unfolding store
  load_direct meta r =
      let entry = load meta in
      if is_some entry.resource then (true, store meta.resource_id entry r) else (false, r)

  unfoldable pub load_resource : ℕ → Phase → ResourceRegistry → Phase × ResourceRegistry
  unfolding is_known insert_pending erase_pending fail load_direct
  load_resource id testing r = if is_known id r then (ended, r) else (inserting, r)
  load_resource id inserting r = (searching, insert_pending id r)
  load_resource id searching r = elim (find id) [
    | none ↦ (ended, fail id r)
    | some meta ↦ (resolve find meta, r)
  ]
  load_resource id (loading meta) r = let (done, r') = load_direct meta r in (loaded meta done, r')
  load_resource id (loaded meta true) r = (ended, erase_pending id r)
  load_resource id (loaded meta false) r = (ended, fail meta.resource_id r)
  load_resource id ended r = (ended, r)
  load_resource id failed r = (failed, r)

-- `set_dirty` and `get_dirty`, which use `resources[id]`.
abbrev pub data_at : ℕ → ResourceRegistry → ResourceData
data_at id r = elim (r.resources id) [ none ↦ empty_data | some entry ↦ entry ]

unfoldable pub set_dirty : ℕ → ResourceDirtyFlags → ResourceRegistry → ResourceRegistry
unfolding store
set_dirty id flags r =
    let entry = data_at id r in
    store id (record entry { dirty = λ bit. entry.dirty bit || flags bit }) r

unfoldable pub get_dirty : ℕ → ResourceRegistry → ResourceDirtyFlags × ResourceRegistry
unfolding store
get_dirty id r = ((data_at id r).dirty, store id (data_at id r) r)
