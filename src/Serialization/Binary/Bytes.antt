-- ===== src/Serialization/Binary/Bytes.antt =====
-- Numbers as bytes, and reads of what has been written.
use portal_framework.Base.{
  ℕ, zero, suc, ◌/◌, ◌%◌, ◌^◌, ◌<◌, ◌≡◌, refl, ap, List, [], ◌∷◌, ◌++◌, length, take, drop,
  replicate, arith,
}
use portal_framework.Serialization.Binary.{to_bytes, of_bytes}

pub length-to_bytes : (n x : ℕ) → length (to_bytes n x) ≡ n
length-to_bytes zero x = refl
length-to_bytes (suc n) x = ap suc (length-to_bytes n (x / 256))

pub of_bytes-to_bytes : (n x : ℕ) → x < 256 ^ n → of_bytes (to_bytes n x) ≡ x
of_bytes-to_bytes zero x h = omega arith
of_bytes-to_bytes (suc n) x h =
    let lt : x / 256 < 256 ^ n = omega arith in omega (arith, of_bytes-to_bytes n (x / 256) lt)

pub of_bytes-zeros : (bs : List ℕ) (n : ℕ) → of_bytes (bs ++ replicate n 0) ≡ of_bytes bs
of_bytes-zeros [] zero = refl
of_bytes-zeros [] (suc n) = omega (arith, of_bytes-zeros [] n)
of_bytes-zeros (b ∷ bs) n = omega (arith, of_bytes-zeros bs n)

module _ {ℓ} {A : Type ℓ} where
  pub append-nil : (xs : List A) → xs ++ [] ≡ xs
  append-nil [] = refl
  append-nil (x ∷ xs) = ap (λ ys. x ∷ ys) (append-nil xs)

  pub take-append : (xs ys : List A) → take (length xs) (xs ++ ys) ≡ xs
  take-append [] ys = refl
  take-append (x ∷ xs) ys = ap (λ zs. x ∷ zs) (take-append xs ys)

  pub drop-append : (xs ys : List A) → drop (length xs) (xs ++ ys) ≡ ys
  drop-append [] ys = refl
  drop-append (x ∷ xs) ys = drop-append xs ys

pub take-to_bytes : (n x : ℕ) (ys : List ℕ) → take n (to_bytes n x ++ ys) ≡ to_bytes n x
take-to_bytes zero x ys = refl
take-to_bytes (suc n) x ys = ap (λ zs. x % 256 ∷ zs) (take-to_bytes n (x / 256) ys)

pub drop-to_bytes : (n x : ℕ) (ys : List ℕ) → drop n (to_bytes n x ++ ys) ≡ ys
drop-to_bytes zero x ys = refl
drop-to_bytes (suc n) x ys = drop-to_bytes n (x / 256) ys
