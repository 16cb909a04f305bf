-- ===== src/Serialization/Values/RoundTrip.antt =====
-- What `add_value` has written, `get_value` reads.
use portal_framework.Base.{
  ℕ, ◌<◌, ◌^◌, ◌≡◌, refl, subst, false, none, some, List, [], ◌∷◌, ◌++◌, length, take, drop,
}
use portal_framework.Base.Ordered.{Each}
use portal_framework.Serialization.Property.{PropertyContainerType}
use portal_framework.Serialization.Binary.{BinarySerializationParams, get_size}
use portal_framework.Serialization.Binary.Bytes.{take-append, drop-append}
use portal_framework.Serialization.Binary.RoundTrip.{IsStorable}
use portal_framework.Serialization.Values.{
  Shape, scalar, array, text, vec, matrix, sequence, map_of, optional, no_fields, fields, Value,
  concat, scalar_property, array_property, text_property, packed_property, chunks, is_packed,
  add_value,
}

pub chunks-concat :
    (k : ℕ) (xs : List (List ℕ))
    → Each (λ x. length x ≡ k) xs
    → chunks (length xs) k (concat xs) ≡ xs
chunks-concat k [] all = refl
chunks-concat k (x ∷ xs) (e, all) =
    let first : take k (x ++ concat xs) ≡ x =
      subst (λ n. take n (x ++ concat xs) ≡ x) e (take-append x (concat xs)) in
    let others : drop k (x ++ concat xs) ≡ concat xs =
      subst (λ n. drop n (x ++ concat xs) ≡ concat xs) e (drop-append x (concat xs)) in
    rw (first, others, chunks-concat k xs all)

module _ (params : BinarySerializationParams) where
  -- A value that the format holds: its numbers have the sizes of their types, and vectors, strings
  -- and maps are short enough for their number of elements to be written. No vector has GLM vectors or
  -- matrices for elements.
  unfoldable pub IsValue : (s : Shape) → Value s → Type 0
  unfolding Value
  IsValue (scalar t) v = IsStorable params (scalar_property t v)
  IsValue (array t) v = IsStorable params (array_property t v) × Each (λ x. length x ≡ get_size t) v
  IsValue text v = IsStorable params (text_property v)
  IsValue (vec t n) v = IsStorable params (packed_property PropertyContainerType.vector t n v)
  IsValue (matrix t n) v = IsStorable params (packed_property PropertyContainerType.matrix t n v)
  IsValue (sequence s) v = (is_packed s ≡ false) × ((length v < 2 ^ 64) × Each (IsValue s) v)
  IsValue (map_of k s) v = (length v < 2 ^ 64) × Each (λ e. IsValue k e.0 × IsValue s e.1) v
  IsValue (optional s) none = Unit
  IsValue (optional s) (some v) = IsValue s v
  IsValue no_fields v = Unit
  IsValue (fields s r) v = IsValue s v.0 × IsValue r v.1

  -- An entry of a map: its key, and its value behind it.
  abbrev add_entry : (k s : Shape) → Value k × Value s → List ℕ → List ℕ
  add_entry k s e output = add_value params s e.1 (add_value params k e.0 output)
