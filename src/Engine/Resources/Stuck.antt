-- ===== src/Engine/Resources/Stuck.antt =====
-- A part of a composite resource whose load fails.
use portal_framework.Base.{
  ℕ, zero, suc, ◌≡◌, ◌≢◌, refl, sym, ap, subst, ◌∙◌, true, false, ◌||◌, Option, none, some, arith,
}
use portal_framework.Engine.Resources.{
  pending, unexpected, SourceMetadata, ResourceData, ResourceRegistry, Phase, testing, inserting,
  searching, loading, loaded, ended, is_some, is_known, get_resource, insert_pending, erase_pending,
  fail, resolve, load_direct, load_resource,
}
use portal_framework.Engine.Resources.History.{System, create_resource}

-- The job of `load_resource(id)` without other jobs between its steps.
abbrev pub run :
    (ℕ → Option SourceMetadata)
    → (SourceMetadata → ResourceData)
    → ℕ
    → ℕ
    → Phase × ResourceRegistry
    → Phase × ResourceRegistry
run find load id zero state = state
run find load id (suc n) (p, r) = run find load id n (load_resource find load id p r)

module _ (find : ℕ → Option SourceMetadata) (load : SourceMetadata → ResourceData) (id : ℕ)
    (r : ResourceRegistry) where
  tested :
      r.resources id ≡ none
      → r.pending_resources id ≡ false
      → load_resource find load id testing r ≡ (inserting, r)
  unfolding load_resource is_known
  tested e p = rw (p, e)

  searched :
      (c : ℕ) (part whole : SourceMetadata)
      → find id ≡ some part
      → part.composite ≡ some c
      → find c ≡ some whole
      → load_resource find load id searching r ≡ (loading whole, r)
  unfolding load_resource
  searched c part whole f m g = rw (f, m, g, load_resource, resolve)

  loaded_none :
      (whole : SourceMetadata)
      → (load whole).resource ≡ none
      → load_resource find load id (loading whole) r ≡ (loaded whole false, r)
  unfolding load_resource load_direct
  loaded_none whole l = rw (l)

-- A resource that is not there and not pending, which the database knows as a part of another, is
-- loaded by a job, and the loader returns no resource for the whole. Then the job ends, the part is
-- pending for `get_resource`, and no call of `create_resource` starts a job for it again.
pub load_resource-stuck :
    (find : ℕ → Option SourceMetadata) (load : SourceMetadata → ResourceData) (id c : ℕ)
    (part whole : SourceMetadata) (r : ResourceRegistry)
    → r.resources id ≡ none
    → r.pending_resources id ≡ false
    → find id ≡ some part
    → part.composite ≡ some c
    → find c ≡ some whole
    → whole.resource_id ≢ id
    → (load whole).resource ≡ none
    → let (phase, r') = run find load id 5 (testing, r) in
      (phase ≡ ended)
      × (get_resource find id r' ≡ unexpected pending)
      × ((j : ℕ) (s : System) → s.registry ≡ r' → create_resource j id s ≡ s)
unfolding load_resource load_direct is_known insert_pending erase_pending fail get_resource
    create_resource
load_resource-stuck find load id c part whole r e p f m g n l =
    let r1 = insert_pending id r in
    let ran : run find load id 5 (testing, r) ≡ (ended, fail whole.resource_id r1) =
      ap (run find load id 4) (tested find load id r e p)
      ∙ ap (run find load id 2) (searched find load id r1 c part whole f m g)
      ∙ ap (run find load id 1) (loaded_none find load id r1 whole l) in
    let waits : (fail whole.resource_id r1).pending_resources id ≡ true = ground (arith, n) in
    subst
      (λ out.
        (out.0 ≡ ended)
        × (get_resource find id out.1 ≡ unexpected pending)
        × ((j : ℕ) (s : System) → s.registry ≡ out.1 → create_resource j id s ≡ s))
      (sym ran)
      (
        refl,
        rw (e, waits, get_resource),
        (λ j s q.
            let known : is_known id s.registry ≡ true =
              ap (is_known id) q ∙ ap (λ b. b || is_some (r.resources id)) waits in
            rw (known)),
      )
