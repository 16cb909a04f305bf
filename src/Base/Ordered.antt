-- ===== src/Base/Ordered.antt =====
-- Statements about each element of a list, and about each element and those behind it.
use portal_framework.Base.{Bool, true, false, List, [], ◌∷◌, ◌++◌, if◌then◌else◌}

-- A statement about each element of a list.
abbrev pub Each {ℓ κ} : {A : Type ℓ} → (A → Type κ) → List A → Type κ
Each P [] = Unit
Each P (x ∷ xs) = P x × Each P xs

-- A statement about each element and each of those behind it.
abbrev pub Ordered {ℓ κ} : {A : Type ℓ} → (A → A → Type κ) → List A → Type κ
Ordered R [] = Unit
Ordered R (x ∷ xs) = Each (R x) xs × Ordered R xs

abbrev pub filter {ℓ} : {A : Type ℓ} → (A → Bool) → List A → List A
filter test [] = []
filter test (x ∷ xs) = let rest = filter test xs in if test x then x ∷ rest else rest

abbrev pub reverse {ℓ} : {A : Type ℓ} → List A → List A
reverse [] = []
reverse (x ∷ xs) = reverse xs ++ (x ∷ [])

module _ {ℓ} {A : Type ℓ} where
  pub Each-map {κ μ} :
      {P : A → Type κ} {Q : A → Type μ} (xs : List A)
      → ((x : A) → P x → Q x)
      → Each P xs
      → Each Q xs
  Each-map [] f all = tt
  Each-map (x ∷ xs) f (p, all) = (f x p, Each-map xs f all)

  pub Each-append {κ} :
      (P : A → Type κ) (xs ys : List A) → Each P xs → Each P ys → Each P (xs ++ ys)
  Each-append P [] ys hx hy = hy
  Each-append P (x ∷ xs) ys (p, hx) hy = (p, Each-append P xs ys hx hy)

  pub Each-reverse {κ} : (P : A → Type κ) (xs : List A) → Each P xs → Each P (reverse xs)
  Each-reverse P [] all = tt
  Each-reverse P (x ∷ xs) (p, all) =
      Each-append P (reverse xs) (x ∷ []) (Each-reverse P xs all) (p, tt)

  pub Each-filter {κ} :
      (P : A → Type κ) (test : A → Bool) (xs : List A) → Each P xs → Each P (filter test xs)
  Each-filter P test [] all = tt
  Each-filter P test (x ∷ xs) (p, all) =
      let rest = Each-filter P test xs all in
      elim (test x) as (λ b. Each P (if b then x ∷ filter test xs else filter test xs)) [
        | true ↦ (p, rest)
        | false ↦ rest
      ]

  pub Ordered-map {κ μ} :
      {R : A → A → Type κ} {S : A → A → Type μ} (xs : List A)
      → ((x y : A) → R x y → S x y)
      → Ordered R xs
      → Ordered S xs
  Ordered-map [] f o = tt
  Ordered-map (x ∷ xs) f (p, o) = (Each-map xs (f x) p, Ordered-map xs f o)

  pub Ordered-filter {κ} :
      (R : A → A → Type κ) (test : A → Bool) (xs : List A)
      → Ordered R xs
      → Ordered R (filter test xs)
  Ordered-filter R test [] o = tt
  Ordered-filter R test (x ∷ xs) (p, o) =
      let rest = Ordered-filter R test xs o in
      elim (test x) as (λ b. Ordered R (if b then x ∷ filter test xs else filter test xs)) [
        | true ↦ (Each-filter (R x) test xs p, rest)
        | false ↦ rest
      ]

  -- An element behind the others.
  Ordered-snoc {κ} :
      (R : A → A → Type κ) (xs : List A) (y : A)
      → Ordered R xs
      → Each (λ x. R x y) xs
      → Ordered R (xs ++ (y ∷ []))
  Ordered-snoc R [] y o p = (tt, tt)
  Ordered-snoc R (x ∷ xs) y (q, o) (r, p) =
      (Each-append (R x) xs (y ∷ []) q (r, tt), Ordered-snoc R xs y o p)

  pub Ordered-reverse {κ} :
      (R : A → A → Type κ) (xs : List A) → Ordered R xs → Ordered (λ x y. R y x) (reverse xs)
  Ordered-reverse R [] o = tt
  Ordered-reverse R (x ∷ xs) (p, o) =
      Ordered-snoc (λ a b. R b a) (reverse xs) x (Ordered-reverse R xs o) (Each-reverse (R x) xs p)
