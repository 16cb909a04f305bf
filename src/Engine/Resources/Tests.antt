-- ===== src/Engine/Resources/Tests.antt =====
-- Tests of Engine.Resources.
use portal_framework.Base.{
  ℕ, ◌≡◌, refl, sym, ap, ◌∙◌, Bool, true, false, Option, none, some, ◌==◌, if◌then◌else◌, arith,
}
use portal_framework.Engine.Resources.{
  pending, unexpected, SourceMetadata, ResourceData, Phase, testing, inserting, searching, loading,
  loaded, ResourceState, ended, clean, create, is_known, get_resource, insert_pending,
  erase_pending, fail, load_direct, load_resource,
}
use portal_framework.Engine.Resources.History.{System, create_resource, advance, Step, Reach}
use portal_framework.Engine.Resources.Settled.{IsAnswered, Reach-settles}
use portal_framework.Engine.Resources.Moves.{IsPlain, under_way}
use portal_framework.Engine.Resources.Stuck.{run, load_resource-stuck}

-- A database that knows the resource 7, and 8 as a part of the resource 9.
abbrev lone : ℕ → Option SourceMetadata
lone id = if id == 7 then some (record { resource_id = 7; composite = none }) else none

abbrev parts : ℕ → Option SourceMetadata
parts id =
    if id == 8
    then some (record { resource_id = 8; composite = some 9 })
    else if id == 9
    then some (record { resource_id = 9; composite = none })
    else none

abbrev no_loader : SourceMetadata → ResourceData
no_loader meta = record { resource = none; dirty = clean }

lone-IsPlain : IsPlain lone
lone-IsPlain id meta h = ground (arith, h)

-- The resource 7 is asked for, and its job runs to its end: the loader gives nothing.
abbrev step : Phase → System → System
step p s = advance lone no_loader 0 (7, p) s

abbrev seven : SourceMetadata
seven = record { resource_id = 7; composite = none }

abbrev asked : System
asked = create_resource 0 7 (record { registry = create; job = λ j. none })

abbrev the_job : ℕ × Phase
the_job = (7, ended)

abbrev quiet : System
quiet =
    step (loaded seven false)
      (step (loading seven) (step searching (step inserting (step testing asked))))

quiet-Reach : Reach lone no_loader quiet
unfolding create_resource is_known advance load_resource load_direct
quiet-Reach =
    let r0 : Reach lone no_loader asked = Reach.next Reach.starts (Step.creates 0 7 refl) in
    let r1 = Reach.next r0 (Step.advances 0 (7, testing) refl) in
    let r2 = Reach.next r1 (Step.advances 0 (7, inserting) refl) in
    let r3 = Reach.next r2 (Step.advances 0 (7, searching) refl) in
    let r4 = Reach.next r3 (Step.advances 0 (7, loading seven) refl) in
    Reach.next r4 (Step.advances 0 (7, loaded seven false) refl)

ended_job : (j : ℕ) → quiet.job j ≡ (if 0 == j then some the_job else none)
unfolding create_resource is_known advance load_resource load_direct
ended_job j = ground arith

only_ended :
    (b : Bool) (id : ℕ) (p : Phase)
    → (if b then some the_job else none) ≡ some (id, p)
    → under_way p ≡ false
only_ended true id p h = sym (ap (λ o. elim o [ none ↦ false | some x ↦ under_way (x.1) ]) h)
only_ended false id p h = cc

quiet-all : (j id : ℕ) (p : Phase) → quiet.job j ≡ some (id, p) → under_way p ≡ false
unfolding create_resource is_known advance load_resource load_direct
quiet-all j id p h = only_ended (0 == j) id p (sym (ended_job j) ∙ h)

quiet-refused : get_resource lone 7 quiet.registry ≡ unexpected ResourceState.error
unfolding create_resource is_known advance load_resource load_direct get_resource insert_pending
    fail erase_pending
quiet-refused = refl

Reach-settles_example : IsAnswered (get_resource lone 7 quiet.registry)
unfolding create_resource is_known advance load_resource load_direct
Reach-settles_example =
    (Reach-settles lone no_loader quiet lone-IsPlain quiet-Reach).2 quiet-all 0 7 refl

load_resource-stuck_example :
    let (phase, r') = run parts no_loader 8 5 (testing, create) in
    (phase ≡ ended)
    × (get_resource parts 8 r' ≡ unexpected pending)
    × ((j : ℕ) (s : System) → s.registry ≡ r' → create_resource j 8 s ≡ s)
load_resource-stuck_example =
    load_resource-stuck parts no_loader 8 9 (record { resource_id = 8; composite = some 9 })
      (record { resource_id = 9; composite = none }) create refl refl refl refl refl (omega arith)
      refl
