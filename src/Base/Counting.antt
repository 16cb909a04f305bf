-- ===== src/Base/Counting.antt =====
-- How often a number occurs in a list: bags of handles, for what is neither lost nor doubled.
use Prim.Native.Nat.{ℕ, suc, ◌+◌, ◌≤◌}
use mathlib.Core.Path.{◌≡◌, refl}
use mathlib.Core.Logic.{◌≢◌}
use mathlib.Core.List.{List, [], ◌∷◌, ◌++◌}
use native.Mathlib.Omega.{arith}
use portal_framework.Base.{◌==◌, if◌then◌else◌, length}

abbrev pub count : ℕ → List ℕ → ℕ
count a [] = 0
count a (x ∷ xs) = (if a == x then 1 else 0) + count a xs

pub count-append : (a : ℕ) (xs ys : List ℕ) → count a (xs ++ ys) ≡ count a xs + count a ys
count-append a [] ys = omega arith
count-append a (x ∷ xs) ys = ground (arith, count-append a xs ys)

-- The list without the first occurrence of a number.
abbrev pub remove : ℕ → List ℕ → List ℕ
remove a [] = []
remove a (x ∷ xs) = let rest = remove a xs in if a == x then xs else x ∷ rest

pub count-remove :
    (a x : ℕ) (xs : List ℕ)
    → count a xs ≢ 0
    → count x xs ≡ (if x == a then 1 else 0) + count x (remove a xs)
count-remove a x [] h = absurd (h refl)
count-remove a x (y ∷ ys) h = ground (arith, count-remove a x ys)

pub length-remove : (a : ℕ) (xs : List ℕ) → count a xs ≢ 0 → length xs ≡ suc (length (remove a xs))
length-remove a [] h = absurd (h refl)
length-remove a (y ∷ ys) h = ground (arith, length-remove a ys)

pub count-le-length : (a : ℕ) (xs : List ℕ) → count a xs ≤ length xs
count-le-length a [] = omega arith
count-le-length a (x ∷ xs) = ground (arith, count-le-length a xs)
