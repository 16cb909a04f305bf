-- ===== src/Engine/Resources/Settled.antt =====
-- What becomes of the resources that jobs load.
use portal_framework.Base.{
  ℕ, ◌≡◌, ◌≢◌, refl, sym, ◌∙◌, Bool, true, false, ◌||◌, Option, none, some, if◌then◌else◌,
}
use portal_framework.Engine.Resources.{
  ResourceState, pending, error, Answer, got, unexpected, SourceMetadata, ResourceData, Phase,
  ended, failed, is_some, get_resource,
}
use portal_framework.Engine.Resources.History.{System, Reach}
use portal_framework.Engine.Resources.Moves.{under_way, IsPlain}
use portal_framework.Engine.Resources.Kept.{Reach-IsSystem}

-- What a client gets for a resource whose load has ended: a resource that is not null, or the state
-- `error`.
abbrev pub IsAnswered : Answer → Type 0
IsAnswered (got (some x)) = Unit
IsAnswered (got none) = ⊥
IsAnswered (unexpected error) = Unit
IsAnswered (unexpected state) = ⊥

got-IsAnswered : (x : Option ℕ) → is_some x ≡ true → IsAnswered (got x)
got-IsAnswered (some x) h = tt
got-IsAnswered none h = elim (unequal h) [ ]
  where
    unequal : false ≡ true → ⊥
    unequal e = cc

answer-IsAnswered :
    (entry : Option ResourceData) (waits errored found : Bool)
    → ((x : ResourceData) → entry ≡ some x → is_some x.resource ≡ true)
    → (is_some entry || (errored || waits)) ≡ true
    → waits ≡ false
    → IsAnswered (elim entry [
      | some x ↦ got x.resource
      | none ↦
          if waits
          then unexpected pending
          else if errored
          then unexpected error
          else if found
          then unexpected ResourceState.unloaded
          else unexpected ResourceState.missing
    ])
answer-IsAnswered (some x) waits errored found solid h k = got-IsAnswered x.resource (solid x refl)
answer-IsAnswered none true errored found solid h k = elim (unequal k) [ ]
  where
    unequal : true ≡ false → ⊥
    unequal e = cc
answer-IsAnswered none false true found solid h k = tt
answer-IsAnswered none false false found solid h k = elim (unequal h) [ ]
  where
    unequal : false ≡ true → ⊥
    unequal e = cc

-- In every history of a new registry in which dirty bits are set and asked for only where a resource
-- is there, its jobs interleaved at every point where they take the lock, and over a database without
-- composite resources whose metadata for an identifier bears that identifier: no job ends by an
-- exception; a resource that is pending has a job that searches or loads it; and when no such job is
-- left, a resource whose job has ended is answered for, with a resource that is not null or with the
-- state `error`.
pub Reach-settles :
    (find : ℕ → Option SourceMetadata) (load : SourceMetadata → ResourceData) (s : System)
    → IsPlain find
    → Reach find load s
    → ((j id : ℕ) → s.job j ≢ some (id, failed))
      × ((id : ℕ)
          → s.registry.pending_resources id ≡ true
          → (j : ℕ) × (p : Phase) × (s.job j ≡ some (id, p)) × (under_way p ≡ true))
      × (((j id : ℕ) (p : Phase) → s.job j ≡ some (id, p) → under_way p ≡ false)
          → (j id : ℕ) → s.job j ≡ some (id, ended)
          → IsAnswered (get_resource find id s.registry))
unfolding get_resource
Reach-settles find load s plain r =
    let w = Reach-IsSystem find load plain r in
    (
      (λ j id e. w.jobs j id failed e),
      w.pendings,
      (λ quiet j id e.
          answer-IsAnswered (s.registry.resources id) (s.registry.pending_resources id)
            (s.registry.errored_resources id) (is_some (find id)) (w.solid id) (w.jobs j id ended e)
            (not_pending id (s.registry.pending_resources id) refl quiet)),
    )
  where
    not_pending :
        (id : ℕ) (waits : Bool)
        → s.registry.pending_resources id ≡ waits
        → ((j id : ℕ) (p : Phase) → s.job j ≡ some (id, p) → under_way p ≡ false)
        → waits ≡ false
    not_pending id false m quiet = refl
    not_pending id true m quiet =
        let (j, p, e, u) = (Reach-IsSystem find load plain r).pendings id m in
        sym u ∙ quiet j id p e
