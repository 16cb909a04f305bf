-- ===== src/Serialization/Archive/Bytes.antt =====
-- Reads in a buffer that is large enough.
use portal_framework.Base.{
  ℕ, ◌+◌, ◌-◌, ◌*◌, ◌≤◌, ◌≡◌, subst, List, [], ◌∷◌, ◌++◌, length, length-append, take, ok, arith,
}
use portal_framework.Base.Ordered.{Each}
use portal_framework.Serialization.Binary.Bytes.{take-append, append-nil}
use portal_framework.Serialization.Values.{concat, chunks}
use portal_framework.Serialization.Values.RoundTrip.{chunks-concat}
use portal_framework.Serialization.Archive.{bytes}
use portal_framework.Serialization.Archive.Reading.{read_bytes}

-- A buffer with enough bytes, and one with just these.
pub read_bytes-take : (k : ℕ) (v : List ℕ) → k ≤ length v → read_bytes k (bytes v) ≡ ok (take k v)
unfolding read_bytes
read_bytes-take k v le = ground arith

pub read_bytes-all : (k : ℕ) (v : List ℕ) → length v ≡ k → read_bytes k (bytes v) ≡ ok v
read_bytes-all k v e =
    let le : k ≤ length v = omega arith in
    let all : take k v ≡ v =
      subst (λ n. take n v ≡ v) e
        (subst (λ w. take (length v) w ≡ v) (append-nil v) (take-append v [])) in
    rw (read_bytes-take k v le, all)

pub read_bytes-text : (v : List ℕ) → read_bytes (length v + 1 - 1) (bytes (v ++ (0 ∷ []))) ≡ ok v
read_bytes-text v =
    let size : length v + 1 - 1 ≡ length v = omega arith in
    let both : length (v ++ (0 ∷ [])) ≡ length v + 1 = length-append v (0 ∷ []) in
    let room : length v ≤ length (v ++ (0 ∷ [])) = omega arith in
    rw (size, read_bytes-take (length v) (v ++ (0 ∷ [])) room, take-append v (0 ∷ []))

length-concat :
    (k : ℕ) (v : List (List ℕ)) → Each (λ x. length x ≡ k) v → length (concat v) ≡ length v * k
length-concat k [] h = omega arith
length-concat k (x ∷ xs) (e, h) = omega (arith, length-append x (concat xs), length-concat k xs h)

-- The numbers of a GLM vector, read from its bytes.
pub read_bytes-concat :
    (n k : ℕ) (v : List (List ℕ))
    → length v ≡ n
    → Each (λ x. length x ≡ k) v
    → read_bytes (n * k) (bytes (concat v)) ≡ ok (concat v)
read_bytes-concat n k v e h =
    read_bytes-all (n * k) (concat v)
      (subst (λ m. length (concat v) ≡ m * k) e (length-concat k v h))

pub chunks-all :
    (n k : ℕ) (v : List (List ℕ))
    → length v ≡ n
    → Each (λ x. length x ≡ k) v
    → chunks n k (concat v) ≡ v
chunks-all n k v e h = subst (λ m. chunks m k (concat v) ≡ v) e (chunks-concat k v h)
