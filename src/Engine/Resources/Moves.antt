-- ===== src/Engine/Resources/Moves.antt =====
-- What one step of a job of `load_resource` does to the registry.
use portal_framework.Base.{
  ◌∙◌, ℕ, ◌≡◌, refl, sym, subst, Bool, true, false, ◌||◌, Option, none, some, if◌then◌else◌, ◌==◌,
  ℕ_discrete, ◌≢◌, ◌⊎◌, inl, inr, arith, Option-cases,
}
use portal_framework.Engine.Resources.{
  SourceMetadata, ResourceData, ResourceRegistry, Phase, testing, inserting, searching, loading,
  loaded, ended, failed, is_some, is_known, store, insert_pending, erase_pending, fail, resolve,
  load_direct, load_resource,
}

abbrev pub under_way : Phase → Bool
under_way searching = true
under_way (loading meta) = true
under_way (loaded meta done) = true
under_way p = false

abbrev pub there : ResourceRegistry → ℕ → Bool
there r id = is_some (r.resources id)

-- The registry remembers that the resource was asked for.
abbrev pub noted : ResourceRegistry → ℕ → Bool
noted r id = there r id || (r.errored_resources id || r.pending_resources id)

-- A job for `id` in this phase.
abbrev pub IsJob : ResourceRegistry → ℕ → Phase → Type 0
IsJob r id (loading meta) = meta.resource_id ≡ id
IsJob r id (loaded meta true) = (meta.resource_id ≡ id) × (there r id ≡ true)
IsJob r id (loaded meta false) = meta.resource_id ≡ id
IsJob r id ended = noted r id ≡ true
IsJob r id failed = ⊥
IsJob r id p = Unit

-- No entry of the database is a part of a composite resource.
abbrev pub IsPlain : (ℕ → Option SourceMetadata) → Type 0
IsPlain find =
    (id : ℕ) (meta : SourceMetadata)
    → find id ≡ some meta
    → (meta.resource_id ≡ id) × (meta.composite ≡ none)

-- No entry is null.
abbrev pub IsSolid : ResourceRegistry → Type 0
IsSolid r = (i : ℕ) (x : ResourceData) → r.resources i ≡ some x → is_some x.resource ≡ true

pub store-IsSolid :
    (id : ℕ) (entry : ResourceData) (r : ResourceRegistry)
    → is_some entry.resource ≡ true
    → IsSolid r
    → IsSolid (store id entry r)
unfolding store
store-IsSolid id entry r e h i x m = elim (ℕ_discrete id i) [
  | yes y ↦ subst (λ o. elim o [ none ↦ Unit | some x ↦ is_some x.resource ≡ true ]) (at_id y ∙ m) e
  | no n ↦ h i x (elsewhere n ∙ m)
]
  where
    at_id : id ≡ i → some entry ≡ (if id == i then some entry else r.resources i)
    at_id y = ground (arith, y)

    elsewhere : id ≢ i → r.resources i ≡ (if id == i then some entry else r.resources i)
    elsewhere n = ground (arith, n)

pub record Grows (r r' : ResourceRegistry) : Type 0 where
  pub stays : (i : ℕ) → there r i ≡ true → there r' i ≡ true
  pub notes : (i : ℕ) → noted r i ≡ true → noted r' i ≡ true

pub record Moves (r : ResourceRegistry) (id : ℕ) (p : Phase) (out : Phase × ResourceRegistry)
    : Type 0 where
  pub grows : Grows r out.1
  pub is_job : IsJob out.1 id out.0
  pub kept :
      (i : ℕ)
      → out.1.pending_resources i ≡ true
      → (r.pending_resources i ≡ true) ⊎ ((id ≡ i) × (under_way out.0 ≡ true))
  pub left : under_way p ≡ true → under_way out.0 ≡ false → out.1.pending_resources id ≡ false
  pub solid : IsSolid r → IsSolid out.1

same-Grows : (r : ResourceRegistry) → Grows r r
same-Grows r = record { stays = λ i h. h; notes = λ i h. h }

pub IsJob-Grows :
    (r r' : ResourceRegistry) (id : ℕ) (p : Phase) → Grows r r' → IsJob r id p → IsJob r' id p
IsJob-Grows r r' id testing g h = tt
IsJob-Grows r r' id inserting g h = tt
IsJob-Grows r r' id searching g h = tt
IsJob-Grows r r' id (loading meta) g h = h
IsJob-Grows r r' id (loaded meta true) g (h, k) = (h, g.stays id k)
IsJob-Grows r r' id (loaded meta false) g h = h
IsJob-Grows r r' id ended g h = g.notes id h
IsJob-Grows r r' id failed g h = elim h [ ]

pub store-Grows :
    (id : ℕ) (entry : ResourceData) (r : ResourceRegistry) → Grows r (store id entry r)
unfolding store
store-Grows id entry r = record {
  stays = λ i h. ground (arith, h);
  notes = λ i h. ground (arith, h);
}

module _ (find : ℕ → Option SourceMetadata) (load : SourceMetadata → ResourceData)
    (plain : IsPlain find) where
  testing-Moves :
      (id : ℕ) (r : ResourceRegistry) (known : Bool)
      → is_known id r ≡ known
      → Moves r id testing (if known then (ended, r) else (inserting, r))
  unfolding is_known
  testing-Moves id r true h = record {
    grows = same-Grows r;
    is_job = ground (arith, h);
    kept = λ i k. inl k;
    left = λ k l. cc;
    solid = λ h. h;
  }
  testing-Moves id r false h = record {
    grows = same-Grows r;
    is_job = tt;
    kept = λ i k. inl k;
    left = λ k l. cc;
    solid = λ h. h;
  }

  inserting-Moves :
      (id : ℕ) (r : ResourceRegistry) → Moves r id inserting (searching, insert_pending id r)
  unfolding insert_pending
  inserting-Moves id r = record {
    grows = record { stays = λ i h. h; notes = λ i h. ground (arith, h) };
    is_job = tt;
    kept =
        λ i k. elim (ℕ_discrete id i) [ yes e ↦ inr (e, refl) | no n ↦ inl (ground (arith, k, n)) ];
    left = λ k l. cc;
    solid = λ h. h;
  }

  fail-Moves : (id : ℕ) (p : Phase) (r : ResourceRegistry) → Moves r id p (ended, fail id r)
  unfolding fail erase_pending
  fail-Moves id p r = record {
    grows = record { stays = λ i h. h; notes = λ i h. ground (arith, h) };
    is_job = ground arith;
    kept = λ i k. inl (ground (arith, k));
    left = λ k l. ground arith;
    solid = λ h. h;
  }

  searching-Moves :
      (id : ℕ) (r : ResourceRegistry) (meta : SourceMetadata)
      → find id ≡ some meta
      → Moves r id searching (resolve find meta, r)
  searching-Moves id r meta h =
      let (k, c) = plain id meta h in
      let plain_phase : resolve find meta ≡ loading meta = rw (c) in
      subst (λ p. Moves r id searching (p, r)) (sym plain_phase)
        (record {
          grows = same-Grows r;
          is_job = k;
          kept = λ i l. inl l;
          left = λ l m. cc;
          solid = λ h. h;
        })

  direct-Moves :
      (id : ℕ) (r : ResourceRegistry) (meta : SourceMetadata) (entry : ResourceData) (done : Bool)
      → meta.resource_id ≡ id
      → is_some entry.resource ≡ done
      → let (b, r') : Bool × ResourceRegistry =
          if done then (true, store meta.resource_id entry r) else (false, r) in
        Moves r id (loading meta) (loaded meta b, r')
  unfolding store
  direct-Moves id r meta entry true k e = record {
    grows = store-Grows meta.resource_id entry r;
    is_job = (k, ground (arith, k));
    kept = λ i l. inl l;
    left = λ l m. cc;
    solid = store-IsSolid meta.resource_id entry r e;
  }
  direct-Moves id r meta entry false k e = record {
    grows = same-Grows r;
    is_job = k;
    kept = λ i l. inl l;
    left = λ l m. cc;
    solid = λ h. h;
  }

  done-Moves :
      (id : ℕ) (r : ResourceRegistry) (meta : SourceMetadata)
      → there r id ≡ true
      → Moves r id (loaded meta true) (ended, erase_pending id r)
  unfolding erase_pending
  done-Moves id r meta h = record {
    grows = record { stays = λ i k. k; notes = λ i k. ground (arith, k, h) };
    is_job = ground (arith, h);
    kept = λ i k. inl (ground (arith, k));
    left = λ k l. ground arith;
    solid = λ h. h;
  }

  pub load_resource-Moves :
      (id : ℕ) (p : Phase) (r : ResourceRegistry)
      → IsJob r id p
      → Moves r id p (load_resource find load id p r)
  unfolding load_resource load_direct
  load_resource-Moves id testing r h = testing-Moves id r (is_known id r) refl
  load_resource-Moves id inserting r h = inserting-Moves id r
  load_resource-Moves id searching r h = elim (Option-cases (find id)) [
    | inl e ↦ subst (Moves r id searching) (sym (rw (e, load_resource))) (fail-Moves id searching r)
    | inr (meta, e) ↦
        subst (Moves r id searching) (sym (rw (e, load_resource))) (searching-Moves id r meta e)
  ]
  load_resource-Moves id (loading meta) r h =
      direct-Moves id r meta (load meta) (is_some (load meta).resource) h refl
  load_resource-Moves id (loaded meta true) r (k, h) = done-Moves id r meta h
  load_resource-Moves id (loaded meta false) r h =
      subst (λ i. Moves r id (loaded meta false) (ended, fail i r)) (sym h)
        (fail-Moves id (loaded meta false) r)
  load_resource-Moves id ended r h = record {
    grows = same-Grows r;
    is_job = h;
    kept = λ i k. inl k;
    left = λ k l. cc;
    solid = λ h. h;
  }
  load_resource-Moves id failed r h = elim h [ ]
