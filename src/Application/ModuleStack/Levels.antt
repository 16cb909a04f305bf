-- ===== src/Application/ModuleStack/Levels.antt =====
-- What the computed levels are: each is one more than the greatest level of the dependencies.
use portal_framework.Base.{
  ℕ, zero, suc, ◌+◌, ◌≡◌, ◌≢◌, refl, sym, ap, ◌∙◌, subst, max, true, false, Option, none, some, inl,
  inr, List, [], ◌∷◌, arith, Option-cases, Bool-cases, ℕ_discrete,
}
use portal_framework.Base.Counting.{remove}
use portal_framework.Base.Maps.{lookup, insert, lookup-insert}
use portal_framework.Application.ModuleStack.{
  Outcome, found, circular, out_of_fuel, ◌>>=◌, Progress, contains, level_above,
  compute_module_level,
}

pub found-inj {ℓ} : {A : Type ℓ} {a b : A} → found a ≡ found b → a ≡ b
found-inj e = cc

pub >>=-eq-found {ℓ κ} :
    {A : Type ℓ} {B : Type κ} (r : Outcome A) (next : A → Outcome B) {out : B}
    → (r >>= next) ≡ found out
    → (x : A) × ((r ≡ found x) × (next x ≡ found out))
>>=-eq-found circular next e = cc
>>=-eq-found out_of_fuel next e = cc
>>=-eq-found (found x) next e = (x, (refl, e))

-- One more than the greatest of `next_level - 1` and the levels of modules, which must all be known.
abbrev pub height_from : List (ℕ × ℕ) → ℕ → List ℕ → Option ℕ
height_from levels next_level [] = some next_level
height_from levels next_level (dep ∷ deps) = elim (lookup dep levels) [
  | none ↦ none
  | some level ↦ height_from levels (max next_level (level + 1)) deps
]

-- What is known stays known.
abbrev pub Extends : List (ℕ × ℕ) → List (ℕ × ℕ) → Type 0
Extends old new = (k level : ℕ) → lookup k old ≡ some level → lookup k new ≡ some level

pub height_from-known :
    (levels : List (ℕ × ℕ)) (d : ℕ) (ds : List ℕ) (n level : ℕ)
    → lookup d levels ≡ some level
    → height_from levels n (d ∷ ds) ≡ height_from levels (max n (level + 1)) ds
height_from-known levels d ds n level e = rw (e, height_from) refl

height_from-Extends :
    (old new : List (ℕ × ℕ)) (ds : List ℕ) (n : ℕ) {level : ℕ}
    → Extends old new
    → height_from old n ds ≡ some level
    → height_from new n ds ≡ some level
height_from-Extends old new [] n ext e = e
height_from-Extends old new (d ∷ ds) n ext e = elim (Option-cases (lookup d old)) [
  | inl missing ↦ ground (arith, missing)
  | inr (l, known) ↦
      height_from-known new d ds n l (ext d l known)
      ∙ height_from-Extends old new ds (max n (l + 1)) ext
          (sym (height_from-known old d ds n l known) ∙ e)
]

remove_head : (m : ℕ) (vs : List ℕ) → remove m (m ∷ vs) ≡ vs
remove_head m vs = ground arith

enter_contains : (m j : ℕ) (vs : List ℕ) → contains j vs ≡ true → contains j (m ∷ vs) ≡ true
enter_contains m j vs c = ground arith

contains_ne : (m j : ℕ) (vs : List ℕ) → contains m vs ≡ false → contains j vs ≡ true → m ≢ j
contains_ne m j vs new c same = cc

enter_absent :
    (m j : ℕ) (vs : List ℕ) (level : ℕ) (levels : List (ℕ × ℕ))
    → contains m vs ≡ false
    → contains j vs ≡ true
    → lookup j levels ≡ none
    → lookup j (insert m level levels) ≡ none
enter_absent m j vs level levels new c e =
    let ne = contains_ne m j vs new c in ground (arith, lookup-insert m j level levels, ne)

module _ (dependencies : ℕ → List ℕ) where
  -- Each known level is one more than the greatest level of the dependencies, which are known too.
  abbrev pub IsLevelled : List (ℕ × ℕ) → Type 0
  IsLevelled levels =
      (m level : ℕ)
      → lookup m levels ≡ some level
      → height_from levels 0 (dependencies m) ≡ some level

  -- What a call that returns leaves as it was.
  pub record Kept (s t : Progress) : Type 0 where
    pub visited : t.visited ≡ s.visited
    pub extends : Extends s.levels t.levels
    pub absent :
        (k : ℕ) → contains k s.visited ≡ true → lookup k s.levels ≡ none → lookup k t.levels ≡ none
    pub levelled : IsLevelled s.levels → IsLevelled t.levels

  pub Kept-refl : (s : Progress) → Kept s s
  Kept-refl s = record {
    visited = refl;
    extends = λ k l e. e;
    absent = λ k c e. e;
    levelled = λ v. v;
  }

  pub Kept-trans : {s t u : Progress} → Kept s t → Kept t u → Kept s u
  Kept-trans {s} {t} {u} k k' = record {
    visited = k'.visited ∙ k.visited;
    extends = λ m l e. k'.extends m l (k.extends m l e);
    absent = λ m c e. k'.absent m (ap (contains m) k.visited ∙ c) (k.absent m c e);
    levelled = λ v. k'.levelled (k.levelled v);
  }

  -- A computation that keeps what is known and makes the level of its module known.
  abbrev pub IsGet : (ℕ → Progress → Outcome (ℕ × Progress)) → Type 0
  IsGet get =
      (m : ℕ) (s : Progress) (level : ℕ) (t : Progress)
      → get m s ≡ found (level, t)
      → Kept s t × (lookup m t.levels ≡ some level)

  level_above-Kept :
      (get : ℕ → Progress → Outcome (ℕ × Progress)) (ds : List ℕ) (n : ℕ) (s : Progress) (level : ℕ)
      (t : Progress)
      → IsGet get
      → level_above get ds n s ≡ found (level, t)
      → Kept s t × (height_from t.levels n ds ≡ some level)
  unfolding level_above
  level_above-Kept get [] n s level t g e =
      let same = found-inj e in
      (
        subst (Kept s) (ap (λ (r : ℕ × Progress). r.1) same) (Kept-refl s),
        ap (λ (r : ℕ × Progress). some r.0) same,
      )
  level_above-Kept get (d ∷ ds) n s level t g e =
      let ((l, s1), (first, rest)) = >>=-eq-found (get d s) _ e in
      let (k, known) = g d s l s1 first in
      let (k', high) = level_above-Kept get ds (max n (l + 1)) s1 level t g rest in
      (Kept-trans k k', height_from-known t.levels d ds n l (k'.extends d l known) ∙ high)

  -- A module that is computed: what the loop over its dependencies has left, and what it adds.
  enter-Kept :
      (m : ℕ) (s : Progress) (level : ℕ) (r : Progress)
      → lookup m s.levels ≡ none
      → contains m s.visited ≡ false
      → Kept (record s { visited = m ∷ s.visited }) r
      → height_from r.levels 0 (dependencies m) ≡ some level
      → Kept s (record { levels = insert m level r.levels; visited = remove m r.visited })
  enter-Kept m s level r missing new k high =
      let here : contains m (m ∷ s.visited) ≡ true = ground arith in
      let absent : lookup m r.levels ≡ none = k.absent m here missing in
      let ext : Extends r.levels (insert m level r.levels) =
        λ j l e. ground (arith, lookup-insert m j level r.levels, absent) in
      record {
        visited = ap (remove m) k.visited ∙ remove_head m s.visited;
        extends = λ j l e. ext j l (k.extends j l e);
        absent = λ j c e.
            enter_absent m j s.visited level r.levels new c
              (k.absent j (enter_contains m j s.visited c) e);
        levelled = λ v j l e. elim (ℕ_discrete m j) [
          | yes same ↦
              let known : lookup m (insert m level r.levels) ≡ some l =
                ap (λ i. lookup i (insert m level r.levels)) same ∙ e in
              let value : level ≡ l = ground (arith, lookup-insert m m level r.levels, known) in
              subst (λ i. height_from (insert m level r.levels) 0 (dependencies i) ≡ some l) same
                (height_from-Extends r.levels (insert m level r.levels) (dependencies m) 0 ext high
                  ∙ ap some value)
          | no ne ↦
              let known : lookup j r.levels ≡ some l =
                ground (arith, lookup-insert m j level r.levels, ne) in
              height_from-Extends r.levels (insert m level r.levels) (dependencies j) 0 ext
                (k.levelled v j l known)
        ];
      }

  -- The three branches of a call with fuel.
  pub compute-known :
      (fuel m level : ℕ) (s : Progress)
      → lookup m s.levels ≡ some level
      → compute_module_level dependencies (suc fuel) m s ≡ found (level, s)
  unfolding compute_module_level
  compute-known fuel m level s known = ground (arith, known)

  pub compute-circular :
      (fuel m : ℕ) (s : Progress)
      → lookup m s.levels ≡ none
      → contains m s.visited ≡ true
      → compute_module_level dependencies (suc fuel) m s ≡ circular
  unfolding compute_module_level
  compute-circular fuel m s missing open_call = ground (arith, missing, open_call)

  -- The call for the dependencies of `m`.
  abbrev pub below : ℕ → ℕ → Progress → Outcome (ℕ × Progress)
  below fuel m s =
      level_above (compute_module_level dependencies fuel) (dependencies m) 0
        (record s { visited = m ∷ s.visited })

  abbrev pub leave : ℕ → ℕ → Progress → Progress
  leave m level r = record { levels = insert m level r.levels; visited = remove m r.visited }

  pub compute-enter :
      (fuel m : ℕ) (s : Progress)
      → lookup m s.levels ≡ none
      → contains m s.visited ≡ false
      → compute_module_level dependencies (suc fuel) m s
        ≡ (below fuel m s >>= λ r. found (r.0, leave m r.0 r.1))
  unfolding compute_module_level
  compute-enter fuel m s missing new = ground (arith, missing, new)

  abbrev Gets : ℕ → Progress → ℕ × Progress → Type 0
  Gets m s r = Kept s r.1 × (lookup m r.1.levels ≡ some r.0)

  pub compute_module_level-Kept : (fuel : ℕ) → IsGet (compute_module_level dependencies fuel)
  unfolding compute_module_level
  compute_module_level-Kept zero m s level t e = cc
  compute_module_level-Kept (suc fuel) m s level t e = elim (Option-cases (lookup m s.levels)) [
    | inr (l, known) ↦
        subst (Gets m s) (found-inj (sym (compute-known fuel m l s known) ∙ e)) (Kept-refl s, known)
    | inl missing ↦ elim (Bool-cases (contains m s.visited)) [
      | inl open_call ↦ cc (sym (compute-circular fuel m s missing open_call) ∙ e)
      | inr new ↦
          let ((l, r), (first, rest)) =
            >>=-eq-found (below fuel m s) _ (sym (compute-enter fuel m s missing new) ∙ e) in
          let (k, high) =
            level_above-Kept (compute_module_level dependencies fuel) (dependencies m) 0
              (record s { visited = m ∷ s.visited }) l r (compute_module_level-Kept fuel) first in
          let known : lookup m (insert m l r.levels) ≡ some l =
            ground (arith, lookup-insert m m l r.levels) in
          subst (Gets m s) (found-inj rest) (enter-Kept m s l r missing new k high, known)
    ]
  ]
