-- ===== src/Engine/Resources/Dirty.antt =====
-- The dirty bits of resources.
use portal_framework.Base.{ℕ, ◌≡◌, ap, ◌∙◌, true, false, ◌||◌, Option, none, some, arith}
use portal_framework.Engine.Resources.{
  got, SourceMetadata, ResourceDirtyFlags, ResourceData, ResourceRegistry, empty_data, data_at,
  is_known, get_resource, store, set_dirty, get_dirty,
}
use portal_framework.Engine.Resources.History.{System, create_resource}

module _ (find : ℕ → Option SourceMetadata) (id : ℕ) (entry : ResourceData)
    (r : ResourceRegistry) where
  stored : (store id entry r).resources id ≡ some entry
  unfolding store
  stored = ground arith

  data_at-store : data_at id (store id entry r) ≡ entry
  data_at-store = rw (stored, data_at)

  get_resource-store : get_resource find id (store id entry r) ≡ got entry.resource
  unfolding get_resource
  get_resource-store = rw (stored, get_resource)

  is_known-store : is_known id (store id entry r) ≡ true
  unfolding is_known
  is_known-store = ground (arith, stored)

create_resource-known :
    (j id : ℕ) (s : System) → is_known id s.registry ≡ true → create_resource j id s ≡ s
unfolding create_resource
create_resource-known j id s h = rw (h)

data_at-none : (id : ℕ) (r : ResourceRegistry) → r.resources id ≡ none → data_at id r ≡ empty_data
data_at-none id r e = rw (e, data_at)

-- Bits that are set are read back together with those that were set before. Asking for the dirty bits
-- of a resource that is not there answers that it is clean, and makes an entry for it: from then on
-- `get_resource` gives a null resource as a success, and no call of `create_resource` loads it.
pub get_dirty-all :
    (find : ℕ → Option SourceMetadata) (id : ℕ) (flags : ResourceDirtyFlags) (r : ResourceRegistry)
    → ((bit : ℕ)
        → (get_dirty id (set_dirty id flags r)).0 bit ≡ ((get_dirty id r).0 bit || flags bit))
      × (r.resources id ≡ none
          → let (bits, r') = get_dirty id r in
            ((bit : ℕ) → bits bit ≡ false)
            × (get_resource find id r' ≡ got none)
            × ((j : ℕ) (s : System) → s.registry ≡ r' → create_resource j id s ≡ s))
unfolding get_dirty set_dirty
get_dirty-all find id flags r =
    let before = data_at id r in
    (
      (λ bit.
          ap (λ entry. entry.dirty bit)
            (data_at-store find id (record before { dirty = λ b. before.dirty b || flags b }) r)),
      (λ e. (
        (λ bit. ap (λ entry. entry.dirty bit) (data_at-none id r e)),
        get_resource-store find id before r
            ∙ ap (λ entry. got entry.resource) (data_at-none id r e),
        (λ j s q.
            create_resource-known j id s (ap (is_known id) q ∙ is_known-store find id before r)),
      )),
    )
