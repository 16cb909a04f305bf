-- ===== src/Application/ModuleStack/Termination.antt =====
-- The computation of levels ends: with enough fuel it either finds the levels or finds a cycle.
use portal_framework.Base.{
  ℕ, zero, suc, ◌+◌, ◌≤◌, ◌<◌, ◌≡◌, ◌≢◌, refl, sym, ap, ◌∙◌, subst, max, true, false, inl, inr, ◌⊎◌,
  List, [], ◌∷◌, length, arith, if◌then◌else◌, Option-cases, Bool-cases, ℕ_discrete,
}
use portal_framework.Base.Counting.{count}
use portal_framework.Base.Maps.{lookup}
use portal_framework.Application.ModuleStack.{
  Outcome, found, circular, out_of_fuel, ◌>>=◌, Progress, contains, level_above,
  compute_module_level,
}
use portal_framework.Application.ModuleStack.Levels.{
  compute-known, compute-circular, compute-enter, below, leave, IsGet, compute_module_level-Kept,
}

-- The number of the modules `ms` that are not visited.
abbrev pub unvisited : List ℕ → List ℕ → ℕ
unvisited [] visited = 0
unvisited (m ∷ ms) visited = (if contains m visited then 0 else 1) + unvisited ms visited

unvisited-le : (ms visited : List ℕ) (m : ℕ) → unvisited ms (m ∷ visited) ≤ unvisited ms visited
unvisited-le [] visited m = omega arith
unvisited-le (k ∷ ms) visited m = ground (arith, unvisited-le ms visited m)

unvisited-lt :
    (ms visited : List ℕ) (m : ℕ)
    → count m ms ≢ 0
    → contains m visited ≡ false
    → unvisited ms (m ∷ visited) < unvisited ms visited
unvisited-lt [] visited m h new = absurd (h refl)
unvisited-lt (k ∷ ms) visited m h new = elim (ℕ_discrete m k) [
  | yes same ↦
      let new' : contains k visited ≡ false = ap (λ i. contains i visited) (sym same) ∙ new in
      ground (arith, new', unvisited-le ms visited m, same)
  | no ne ↦
      let later = unvisited-lt ms visited m (λ e. h (ground (arith, e, ne))) new in
      ground (arith, later, ne)
]

pub unvisited-le-length : (ms visited : List ℕ) → unvisited ms visited ≤ length ms
unvisited-le-length [] visited = omega arith
unvisited-le-length (m ∷ ms) visited = ground (arith, unvisited-le-length ms visited)

pub Outcome-cases {ℓ} :
    {A : Type ℓ} (r : Outcome A) → (r ≡ circular) ⊎ ((r ≡ out_of_fuel) ⊎ ((a : A) × (r ≡ found a)))
Outcome-cases circular = inl refl
Outcome-cases out_of_fuel = inr (inl refl)
Outcome-cases (found a) = inr (inr (a, refl))

module _ (dependencies : ℕ → List ℕ) where
  -- What a loop cannot end in, where none of its calls can.
  level_above-avoids :
      (bad : Outcome (ℕ × Progress)) (get : ℕ → Progress → Outcome (ℕ × Progress)) (ds : List ℕ)
      (n : ℕ) (s : Progress)
      → ((r : ℕ × Progress) → found r ≢ bad)
      → IsGet dependencies get
      → ((d : ℕ) (t : Progress) → count d ds ≢ 0 → t.visited ≡ s.visited → get d t ≢ bad)
      → level_above get ds n s ≢ bad
  unfolding level_above
  level_above-avoids bad get [] n s nf g h e = nf _ e
  level_above-avoids bad get (d ∷ ds) n s nf g h e = elim (Outcome-cases (get d s)) [
    | inl c ↦ h d s (ground arith) refl (c ∙ ap (λ r. r >>= next) (sym c) ∙ e)
    | inr (inl o) ↦ h d s (ground arith) refl (o ∙ ap (λ r. r >>= next) (sym o) ∙ e)
    | inr (inr ((l, t), f)) ↦
        let kept = (g d s l t f).0 in
        level_above-avoids bad get ds (max n (l + 1)) t nf g
          (λ k u c same. h k u (ground (arith, c)) (same ∙ kept.visited))
          (ap (λ r. r >>= next) (sym f) ∙ e)
  ]
    where
      next : ℕ × Progress → Outcome (ℕ × Progress)
      next r = level_above get ds (max n (r.0 + 1)) r.1

  -- A call avoids what the call for the dependencies avoids.
  compute-avoids :
      (bad : Outcome (ℕ × Progress)) (fuel m : ℕ) (s : Progress)
      → ((r : ℕ × Progress) → found r ≢ bad)
      → (contains m s.visited ≡ true → circular ≢ bad)
      → (contains m s.visited ≡ false → below dependencies fuel m s ≢ bad)
      → compute_module_level dependencies (suc fuel) m s ≢ bad
  compute-avoids bad fuel m s nf c b e = elim (Option-cases (lookup m s.levels)) [
    | inr (l, known) ↦ nf _ (sym (compute-known dependencies fuel m l s known) ∙ e)
    | inl missing ↦ elim (Bool-cases (contains m s.visited)) [
      | inl open_call ↦
          c open_call (sym (compute-circular dependencies fuel m s missing open_call) ∙ e)
      | inr new ↦
          let whole = sym (compute-enter dependencies fuel m s missing new) ∙ e in
          elim (Outcome-cases (below dependencies fuel m s)) [
            | inl out ↦ b new (out ∙ ap (λ r. r >>= next) (sym out) ∙ whole)
            | inr (inl out) ↦ b new (out ∙ ap (λ r. r >>= next) (sym out) ∙ whole)
            | inr (inr (r, out)) ↦ nf _ (ap (λ r. r >>= next) (sym out) ∙ whole)
          ]
    ]
  ]
    where
      next : ℕ × Progress → Outcome (ℕ × Progress)
      next r = found (r.0, leave dependencies m r.0 r.1)

  -- The dependencies of the modules `ms` are among them.
  abbrev pub IsClosed : List ℕ → Type 0
  IsClosed ms = (m d : ℕ) → count m ms ≢ 0 → count d (dependencies m) ≢ 0 → count d ms ≢ 0

  -- With more fuel than modules that are not visited the fuel does not end.
  pub compute-ne-out_of_fuel :
      (ms : List ℕ) (fuel m : ℕ) (s : Progress)
      → IsClosed ms
      → count m ms ≢ 0
      → unvisited ms s.visited < fuel
      → compute_module_level dependencies fuel m s ≢ out_of_fuel
  compute-ne-out_of_fuel ms zero m s closed inside enough = absurd (omega arith)
  compute-ne-out_of_fuel ms (suc fuel) m s closed inside enough =
      compute-avoids out_of_fuel fuel m s (λ r e. cc) (λ o e. cc)
        (λ new.
          level_above-avoids out_of_fuel (compute_module_level dependencies fuel) (dependencies m) 0
            (record s { visited = m ∷ s.visited }) (λ r e. cc)
            (compute_module_level-Kept dependencies fuel)
            (λ d t dep same. compute-ne-out_of_fuel ms fuel d t closed (closed m d inside dep) (
              subst (λ v. unvisited ms v < fuel) (sym same)
                (omega (arith, unvisited-lt ms s.visited m inside new)))))

  -- A number for each of the modules `ms`, smaller for its dependencies: there is one only where
  -- there is no cycle.
  abbrev pub IsRank : List ℕ → (ℕ → ℕ) → Type 0
  IsRank ms rank = (m d : ℕ) → count m ms ≢ 0 → count d (dependencies m) ≢ 0 → rank d < rank m

  compute-zero : (m : ℕ) (s : Progress) → compute_module_level dependencies zero m s ≡ out_of_fuel
  unfolding compute_module_level
  compute-zero m s = refl

  pub compute-ne-circular :
      (ms : List ℕ) (rank : ℕ → ℕ) (fuel m : ℕ) (s : Progress)
      → IsClosed ms
      → IsRank ms rank
      → count m ms ≢ 0
      → ((v : ℕ) → contains v s.visited ≡ true → rank m < rank v)
      → compute_module_level dependencies fuel m s ≢ circular
  compute-ne-circular ms rank zero m s closed ranked inside above =
      λ e. cc (sym (compute-zero m s) ∙ e)
  compute-ne-circular ms rank (suc fuel) m s closed ranked inside above =
      compute-avoids circular fuel m s (λ r e. cc) (λ o e. omega (arith, above m o))
        (λ new.
          level_above-avoids circular (compute_module_level dependencies fuel) (dependencies m) 0
            (record s { visited = m ∷ s.visited }) (λ r e. cc)
            (compute_module_level-Kept dependencies fuel)
            (λ d t dep same.
              compute-ne-circular ms rank fuel d t closed ranked (closed m d inside dep) (λ v c.
                let known : contains v (m ∷ s.visited) ≡ true = ap (contains v) (sym same) ∙ c in
                let deeper = ranked m d inside dep in
                let outer = above v in
                elim (ℕ_discrete m v) [
                  | yes e ↦ omega (arith, ap rank e)
                  | no ne ↦ ground (arith, outer, ne, known, deeper)
                ])))
