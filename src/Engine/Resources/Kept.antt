-- ===== src/Engine/Resources/Kept.antt =====
-- What every step of a registry and its jobs keeps.
use portal_framework.Base.{
  ℕ, ◌≡◌, ◌≢◌, refl, sym, ap, subst, ◌∙◌, Bool, true, false, ◌||◌, Option, none, some,
  if◌then◌else◌, inl, inr, arith, Bool-cases, ℕ_discrete,
}
use portal_framework.Engine.Resources.{
  SourceMetadata, ResourceData, ResourceDirtyFlags, empty_data, set_dirty, get_dirty,
  ResourceRegistry, Phase, testing, is_some, is_known, store, load_resource,
}
use portal_framework.Engine.Resources.History.{
  System, put_job, create_resource, advance, Step, Reach,
}
use portal_framework.Engine.Resources.Moves.{
  IsSolid, store-IsSolid, under_way, IsJob, IsPlain, Moves, IsJob-Grows, store-Grows,
  load_resource-Moves,
}

put_self : (j : ℕ) (x : ℕ × Phase) (jobs : ℕ → Option (ℕ × Phase)) → put_job j x jobs j ≡ some x
put_self j x jobs = ground arith

put_other :
    (j i : ℕ) (x : ℕ × Phase) (jobs : ℕ → Option (ℕ × Phase)) → j ≢ i → put_job j x jobs i ≡ jobs i
put_other j i x jobs n = ground (arith, n)

some_inj : {x y : ℕ × Phase} → some x ≡ some y → x ≡ y
some_inj e = cc

none-some : {x : ℕ × Phase} → none ≡ some x → ⊥
none-some e = cc

abbrev Job : ResourceRegistry → ℕ × Phase → Type 0
Job r (id, p) = IsJob r id p

pub record IsSystem (s : System) : Type 0 where
  pub solid : IsSolid s.registry
  pub jobs : (j id : ℕ) (p : Phase) → s.job j ≡ some (id, p) → IsJob s.registry id p
  pub pendings :
      (id : ℕ)
      → s.registry.pending_resources id ≡ true
      → (j : ℕ) × (p : Phase) × (s.job j ≡ some (id, p)) × (under_way p ≡ true)

create_resource-IsSystem :
    (j id : ℕ) (s : System) → s.job j ≡ none → IsSystem s → IsSystem (create_resource j id s)
unfolding create_resource
create_resource-IsSystem j id s h w = by_case (is_known id s.registry)
  where
    new : IsSystem (record s { job = put_job j (id, testing) s.job })
    new = record {
      solid = w.solid;
      jobs = λ i k p e. elim (ℕ_discrete j i) [
        | yes m ↦
            subst (Job s.registry)
              (some_inj
                (sym (put_self j (id, testing) s.job) ∙ ap (put_job j (id, testing) s.job) m ∙ e))
              tt
        | no n ↦ w.jobs i k p (sym (put_other j i (id, testing) s.job n) ∙ e)
      ];
      pendings = λ k q.
          let (i, p, e, u) = w.pendings k q in
          (
            i,
            p,
            put_other j i (id, testing) s.job (λ m. none-some (sym h ∙ ap s.job m ∙ e)) ∙ e,
            u,
          );
    }

    by_case :
        (known : Bool)
        → IsSystem (if known then s else record s { job = put_job j (id, testing) s.job })
    by_case true = w
    by_case false = new

moved-IsSystem :
    (j id : ℕ) (p : Phase) (s : System) (out : Phase × ResourceRegistry)
    → s.job j ≡ some (id, p)
    → IsSystem s
    → Moves s.registry id p out
    → IsSystem (record { registry = out.1; job = put_job j (id, out.0) s.job })
moved-IsSystem j id p s out h w moves = record {
  solid = moves.solid w.solid;
  jobs = λ i k q e. elim (ℕ_discrete j i) [
    | yes y ↦
        subst (Job out.1)
          (some_inj (sym (put_self j (id, out.0) s.job) ∙ ap (put_job j (id, out.0) s.job) y ∙ e))
          moves.is_job
    | no n ↦
        IsJob-Grows s.registry out.1 k q moves.grows
          (w.jobs i k q (sym (put_other j i (id, out.0) s.job n) ∙ e))
  ];
  pendings = λ k e. elim (moves.kept k e) [
    | inr (y, u) ↦ (j, out.0, put_self j (id, out.0) s.job ∙ ap (λ x. some (x, out.0)) y, u)
    | inl m ↦
        let (i, q, f, u) = w.pendings k m in
        elim (ℕ_discrete j i) [
          | no n ↦ (i, q, put_other j i (id, out.0) s.job n ∙ f, u)
          | yes y ↦
              let same : (id, p) ≡ (k, q) = some_inj (sym h ∙ ap s.job y ∙ f) in
              elim (Bool-cases (under_way out.0)) [
                | inl v ↦
                    (j, out.0, put_self j (id, out.0) s.job ∙ ap (λ x. some (x.0, out.0)) same, v)
                | inr v ↦ absurd (
                    clash (
                      sym (
                        subst (λ x. out.1.pending_resources x ≡ false) (ap (λ x. x.0) same)
                          (moves.left (ap (λ x. under_way x.1) same ∙ u) v))
                      ∙ e))
              ]
        ]
  ];
}
  where
    clash : false ≡ true → ⊥
    clash e = cc

store-IsSystem :
    (id : ℕ) (entry : ResourceData) (s : System)
    → is_some entry.resource ≡ true
    → IsSystem s
    → IsSystem (record s { registry = store id entry s.registry })
unfolding store
store-IsSystem id entry s x w = record {
  solid = store-IsSolid id entry s.registry x w.solid;
  jobs = λ i k p e. IsJob-Grows s.registry _ k p (store-Grows id entry s.registry) (w.jobs i k p e);
  pendings = λ k e. w.pendings k e;
}

abbrev entry_or_empty : Option ResourceData → ResourceData
entry_or_empty o = elim o [ none ↦ empty_data | some entry ↦ entry ]

-- With an entry for the resource, both calls store it again.
set_dirty-IsSystem :
    (id : ℕ) (flags : ResourceDirtyFlags) (entry : ResourceData) (s : System)
    → s.registry.resources id ≡ some entry
    → IsSystem s
    → IsSystem (record s { registry = set_dirty id flags s.registry })
unfolding set_dirty
set_dirty-IsSystem id flags entry s h w =
    subst
      (λ o. IsSystem (record s {
        registry =
            let old = entry_or_empty o in
            store id (record old { dirty = λ bit. old.dirty bit || flags bit }) s.registry;
      }))
      (sym h)
      (store-IsSystem id (record entry { dirty = λ bit. entry.dirty bit || flags bit }) s
        (w.solid id entry h) w)

get_dirty-IsSystem :
    (id : ℕ) (entry : ResourceData) (s : System)
    → s.registry.resources id ≡ some entry
    → IsSystem s
    → IsSystem (record s { registry = (get_dirty id s.registry).1 })
unfolding get_dirty
get_dirty-IsSystem id entry s h w =
    subst (λ o. IsSystem (record s { registry = store id (entry_or_empty o) s.registry })) (sym h)
      (store-IsSystem id entry s (w.solid id entry h) w)

module _ (find : ℕ → Option SourceMetadata) (load : SourceMetadata → ResourceData)
    (plain : IsPlain find) where
  Step-IsSystem : {s t : System} → Step find load s t → IsSystem s → IsSystem t
  unfolding advance
  Step-IsSystem {s} (Step.creates j id h) w = create_resource-IsSystem j id s h w
  Step-IsSystem {s} (Step.advances j (id, p) h) w =
      moved-IsSystem j id p s (load_resource find load id p s.registry) h w
        (load_resource-Moves find load plain id p s.registry (w.jobs j id p h))
  Step-IsSystem {s} (Step.stores id x) w = store-IsSystem id _ s refl w
  Step-IsSystem {s} (Step.marks id flags entry h) w = set_dirty-IsSystem id flags entry s h w
  Step-IsSystem {s} (Step.asks id entry h) w = get_dirty-IsSystem id entry s h w

  pub Reach-IsSystem : {s : System} → Reach find load s → IsSystem s
  Reach-IsSystem Reach.starts = record {
    solid = λ i x e. cc;
    jobs = λ j id p e. cc;
    pendings = λ id e. cc;
  }
  Reach-IsSystem (Reach.next r p) = Step-IsSystem p (Reach-IsSystem r)
