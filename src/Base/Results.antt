-- ===== src/Base/Results.antt =====
-- C++ exceptions as values: what a call throws, and chains of calls that may throw.
use mathlib.Core.Path.{◌≡◌, refl}

-- `std::bad_alloc`, `std::invalid_argument`, `std::out_of_range`, `std::runtime_error`, and a
-- failed `PORTAL_ASSERT`. `undefined_access` stands for an access that C++ leaves undefined, such as
-- a read through the null pointer.
pub data Error : Type 0 where
  bad_alloc invalid_argument out_of_range runtime_error assertion_failed : Error
  undefined_access : Error

pub data Result {ℓ} (A : Type ℓ) : Type ℓ where
  ok : A → Result A
  err : Error → Result A

infixl 5 ◌>>=◌
abbrev pub ◌>>=◌ {ℓ κ} : {A : Type ℓ} {B : Type κ} → Result A → (A → Result B) → Result B
err e >>= k = err e
ok a >>= k = k a

-- A chain that succeeds has first steps that succeed.
pub >>=-eq-ok {ℓ κ} :
    {A : Type ℓ} {B : Type κ} (r : Result A) (next : A → Result B) {out : B}
    → (r >>= next) ≡ ok out
    → (x : A) × ((r ≡ ok x) × (next x ≡ ok out))
>>=-eq-ok (err e) next eq = cc
>>=-eq-ok (ok x) next eq = (x, (refl, eq))
