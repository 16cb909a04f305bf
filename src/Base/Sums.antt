-- ===== src/Base/Sums.antt =====
-- Sums over the numbers below a bound.
use portal_framework.Base.{ℕ, zero, suc, ◌+◌, ◌<◌, ◌≡◌, ◌≢◌, refl, ap, arith, ℕ_discrete}

abbrev pub sum_below : ℕ → (ℕ → ℕ) → ℕ
sum_below zero f = 0
sum_below (suc n) f = f n + sum_below n f

pub sum_below-eq :
    (n : ℕ) (f g : ℕ → ℕ) → ((i : ℕ) → i < n → f i ≡ g i) → sum_below n f ≡ sum_below n g
sum_below-eq zero f g h = refl
sum_below-eq (suc n) f g h =
    omega (arith, h n (omega arith), sum_below-eq n f g (λ i lt. h i (omega arith)))

-- Two functions that differ at `i` alone.
pub sum_below-change :
    (n i : ℕ) (f g : ℕ → ℕ)
    → i < n
    → ((j : ℕ) → j ≢ i → f j ≡ g j)
    → sum_below n f + g i ≡ sum_below n g + f i
sum_below-change zero i f g lt h = absurd (omega arith)
sum_below-change (suc n) i f g lt h = elim (ℕ_discrete n i) [
  | yes e ↦
      let same : sum_below n f ≡ sum_below n g =
        sum_below-eq n f g (λ j lt'. h j (λ e'. omega arith)) in
      omega (arith, same, ap f e, ap g e)
  | no ne ↦ omega (arith, h n ne, sum_below-change n i f g (omega arith) h)
]

pub sum_below_zero : (n i : ℕ) (f : ℕ → ℕ) → sum_below n f ≡ 0 → i < n → f i ≡ 0
sum_below_zero zero i f e lt = absurd (omega arith)
sum_below_zero (suc n) i f e lt = elim (ℕ_discrete i n) [
  | yes same ↦ rw same (omega arith)
  | no ne ↦ sum_below_zero n i f (omega arith) (omega arith)
]
