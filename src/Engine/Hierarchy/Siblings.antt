-- ===== src/Engine/Hierarchy/Siblings.antt =====
-- The neighbours of an entity in a list of children, and what is left of them when one child leaves
-- the list or joins at its end.
use portal_framework.Base.{
  ℕ, ◌≤◌, ◌≡◌, ◌≢◌, refl, Bool, false, List, [], ◌∷◌, ◌++◌, Option, none, some, arith, ◌==◌,
  if◌then◌else◌,
}
use portal_framework.Base.Counting.{count, remove}

abbrev pub is : Option ℕ → ℕ → Bool
is none y = false
is (some x) y = x == y

abbrev pub head : List ℕ → Option ℕ
head [] = none
head (x ∷ xs) = some x

-- The next child behind `x`, and the last one before it, or `d` at the front.
abbrev pub after : ℕ → List ℕ → Option ℕ
after x [] = none
after x (y ∷ ys) = let rest = after x ys in if y == x then head ys else rest

abbrev pub before : Option ℕ → ℕ → List ℕ → Option ℕ
before d x [] = none
before d x (y ∷ ys) = let rest = before (some y) x ys in if y == x then d else rest

abbrev pub last : Option ℕ → List ℕ → Option ℕ
last d [] = d
last d (y ∷ ys) = last (some y) ys

pub after-absent : (x : ℕ) (xs : List ℕ) → count x xs ≡ 0 → after x xs ≡ none
after-absent x [] h = refl
after-absent x (y ∷ ys) h = ground (arith, after-absent x ys)

pub before-absent : (d : Option ℕ) (x : ℕ) (xs : List ℕ) → count x xs ≡ 0 → before d x xs ≡ none
before-absent d x [] h = refl
before-absent d x (y ∷ ys) h = ground (arith, before-absent (some y) x ys)

head-other : (x : ℕ) (xs : List ℕ) → count x xs ≡ 0 → is (head xs) x ≡ false
head-other x [] h = refl
head-other x (y ∷ ys) h = ground arith

-- A neighbour is in the list.
pub after-other : (x y : ℕ) (xs : List ℕ) → count y xs ≡ 0 → is (after x xs) y ≡ false
after-other x y [] h = refl
after-other x y (z ∷ zs) h = ground (arith, after-other x y zs, head-other y zs)

pub before-other :
    (d : Option ℕ) (x y : ℕ) (xs : List ℕ)
    → is d y ≡ false
    → count y xs ≡ 0
    → is (before d x xs) y ≡ false
before-other d x y [] e h = refl
before-other d x y (z ∷ zs) e h = ground (arith, before-other (some z) x y zs)

-- A child leaves.
head-remove_first :
    (x z : ℕ) (zs : List ℕ)
    → count z zs ≡ 0
    → x ≢ z
    → head (remove x zs) ≡ (if is (before (some z) x zs) z then after x zs else head zs)
head-remove_first x z [] h n = refl
head-remove_first x z (w ∷ ws) h n = ground (arith, before-other (some w) x z ws)

pub after-remove :
    (d : Option ℕ) (x y : ℕ) (xs : List ℕ)
    → y ≢ x
    → is d y ≡ false
    → count y xs ≤ 1
    → after y (remove x xs) ≡ (if is (before d x xs) y then after x xs else after y xs)
after-remove d x y [] n e h = refl
after-remove d x y (z ∷ zs) n e h =
    ground (arith, after-remove (some z) x y zs, head-remove_first x z zs)

before-some : (x z : ℕ) (xs : List ℕ) → count x xs ≢ 0 → before (some z) x xs ≢ none
before-some x z [] h e = absurd (h refl)
before-some x z (y ∷ ys) h e = ground (arith, before-some x y ys)

pub head-remove :
    (x : ℕ) (xs : List ℕ)
    → count x xs ≢ 0
    → head (remove x xs) ≡ (elim (before none x xs) [ none ↦ after x xs | some y ↦ head xs ])
head-remove x [] h = absurd (h refl)
head-remove x (z ∷ zs) h = ground (arith, before-some x z zs)

pub before-remove :
    (d : Option ℕ) (x y : ℕ) (xs : List ℕ)
    → y ≢ x
    → count x xs ≤ 1
    → count y xs ≤ 1
    → before d y (remove x xs) ≡ (if is (after x xs) y then before d x xs else before d y xs)
before-remove d x y [] n h k = refl
before-remove d x y (z ∷ zs) n h k =
    ground (arith, before-remove (some z) x y zs, after-other x y zs)

-- A child joins at the end.
pub last-other :
    (d : Option ℕ) (y : ℕ) (xs : List ℕ)
    → is d y ≡ false
    → count y xs ≡ 0
    → is (last d xs) y ≡ false
last-other d y [] e h = e
last-other d y (z ∷ zs) e h = ground (arith, last-other (some z) y zs)

last-some : (y : ℕ) (xs : List ℕ) → last (some y) xs ≢ none
last-some y [] e = cc
last-some y (x ∷ xs) e = last-some x xs e

pub head-append_none : (x : ℕ) (xs : List ℕ) → last none xs ≡ none → head (xs ++ x ∷ []) ≡ some x
head-append_none x [] h = refl
head-append_none x (y ∷ ys) h = absurd (last-some y ys h)

pub head-append_some :
    (x l : ℕ) (xs : List ℕ) → last none xs ≡ some l → head (xs ++ x ∷ []) ≡ head xs
head-append_some x l [] h = cc
head-append_some x l (y ∷ ys) h = refl

pub after-append :
    (d : Option ℕ) (x y : ℕ) (xs : List ℕ)
    → y ≢ x
    → is d y ≡ false
    → count y xs ≤ 1
    → after y (xs ++ x ∷ []) ≡ (if is (last d xs) y then some x else after y xs)
after-append d x y [] n e h = ground arith
after-append d x y (z ∷ []) n e h = ground arith
after-append d x y (z ∷ w ∷ ws) n e h =
    ground (arith, after-append (some z) x y (w ∷ ws), last-other (some w) y ws)

pub after-append_self : (x : ℕ) (xs : List ℕ) → count x xs ≡ 0 → after x (xs ++ x ∷ []) ≡ none
after-append_self x [] h = ground arith
after-append_self x (y ∷ ys) h = ground (arith, after-append_self x ys)

pub before-append :
    (d : Option ℕ) (x y : ℕ) (xs : List ℕ) → y ≢ x → before d y (xs ++ x ∷ []) ≡ before d y xs
before-append d x y [] n = ground arith
before-append d x y (z ∷ zs) n = ground (arith, before-append (some z) x y zs n)

pub before-append_self :
    (d : Option ℕ) (x : ℕ) (xs : List ℕ) → count x xs ≡ 0 → before d x (xs ++ x ∷ []) ≡ last d xs
before-append_self d x [] h = ground arith
before-append_self d x (y ∷ ys) h = ground (arith, before-append_self (some y) x ys)
