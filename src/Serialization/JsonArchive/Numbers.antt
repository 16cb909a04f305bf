-- ===== src/Serialization/JsonArchive/Numbers.antt =====
-- Numbers through JSON, alone and in vectors.
use portal_framework.Base.{
  ℕ, zero, suc, ◌+◌, ◌*◌, ◌≤◌, ◌<◌, ◌%◌, ◌/◌, ◌≡◌, refl, subst, true, false, some, List, [], ◌∷◌,
  length, take, ok, arith,
}
use portal_framework.Base.Ordered.{Each}
use portal_framework.Serialization.Property.{PropertyType, type_code}
use portal_framework.Serialization.Binary.{to_bytes, of_bytes, get_size}
use portal_framework.Serialization.Binary.Bytes.{length-to_bytes}
use portal_framework.Serialization.Archive.{
  ArchiveObject, bytes, number, number_property, add_property, get_property_type,
}
use portal_framework.Serialization.Archive.Reading.{
  Floats, read_bytes, read_number, get_number, get_property,
}
use portal_framework.Serialization.Archive.Bytes.{read_bytes-take, read_bytes-all}
use portal_framework.Serialization.Archive.Found.{Holds}
use portal_framework.Serialization.JsonArchive.{number_to_json, scalar_to_json}
use portal_framework.Serialization.JsonArchive.Deserialize.{alone, deserialize_scalar}
use portal_framework.Serialization.JsonArchive.Written.{
  wide_type, wide, as_json, HasBytes, IsNumber, one_byte, two_bytes, four_bytes, eight_bytes,
  single, double, bool,
}

-- The low bytes of the number that some bytes make are these bytes.
take-to_bytes-of_bytes :
    (n : ℕ) (v : List ℕ)
    → Each (λ b. b < 256) v
    → length v ≤ n
    → take (length v) (to_bytes n (of_bytes v)) ≡ v
take-to_bytes-of_bytes n [] h le = refl
take-to_bytes-of_bytes zero (b ∷ bs) h le = absurd (omega arith)
take-to_bytes-of_bytes (suc n) (b ∷ bs) (h, hs) le =
    let low : (b + 256 * of_bytes bs) % 256 ≡ b = omega arith in
    let high : (b + 256 * of_bytes bs) / 256 ≡ of_bytes bs = omega arith in
    let le' : length bs ≤ n = omega arith in rw (low, high, take-to_bytes-of_bytes n bs hs le')

pub read_bytes-widened :
    (k : ℕ) (v : List ℕ)
    → HasBytes k v
    → k ≤ 8
    → read_bytes k (bytes (to_bytes 8 (of_bytes v))) ≡ ok v
read_bytes-widened k v (e, small) le =
    let size : length (to_bytes 8 (of_bytes v)) ≡ 8 = length-to_bytes 8 (of_bytes v) in
    let room : k ≤ length (to_bytes 8 (of_bytes v)) = omega arith in
    let low : take k (to_bytes 8 (of_bytes v)) ≡ v =
      subst (λ n. take n (to_bytes 8 (of_bytes v)) ≡ v) e
        (take-to_bytes-of_bytes 8 v small (omega arith)) in
    rw (read_bytes-take k _ room, low)

module _ (floats : Floats) where
  pub scalar_to_json-as_json :
      (t : PropertyType) (v : List ℕ)
      → IsNumber floats t v
      → scalar_to_json floats t (bytes v) ≡ ok (some (as_json floats t v))
  unfolding scalar_to_json number_to_json get_size
  scalar_to_json-as_json _ v (one_byte h) = rw (read_bytes-all 1 v h.0)
  scalar_to_json-as_json _ v (two_bytes h) = rw (read_bytes-all 2 v h.0)
  scalar_to_json-as_json _ v (four_bytes h) = rw (read_bytes-all 4 v h.0)
  scalar_to_json-as_json _ v (eight_bytes h) = rw (read_bytes-all 8 v h.0)
  scalar_to_json-as_json _ v (single h _ _) = rw (read_bytes-all 4 v h)
  scalar_to_json-as_json _ v (double h) = rw (read_bytes-all 8 v h)
  scalar_to_json-as_json _ _ (bool true) = rw (read_bytes-all 1 (1 ∷ []) refl)
  scalar_to_json-as_json _ _ (bool false) = rw (read_bytes-all 1 (0 ∷ []) refl)

  pub number-Holds :
      (t : PropertyType) (v : List ℕ)
      → IsNumber floats t v
      → Holds floats (number t) (number_property (wide_type t) (wide floats t v)) v
  unfolding get_property get_number read_number get_size type_code
  number-Holds _ v (one_byte h) name out o e = rw (e, read_bytes-widened 1 v h (omega arith))
  number-Holds _ v (two_bytes h) name out o e = rw (e, read_bytes-widened 2 v h (omega arith))
  number-Holds _ v (four_bytes h) name out o e = rw (e, read_bytes-widened 4 v h (omega arith))
  number-Holds _ v (eight_bytes h) name out o e = rw (e, read_bytes-widened 8 v h (omega arith))
  number-Holds _ v (single _ size back) name out o e =
      rw (e, read_bytes-all 8 (floats.to_double v) size, back)
  number-Holds _ v (double h) name out o e = rw (e, read_bytes-all 8 v h)
  number-Holds _ _ (bool true) name out o e = rw (e, read_bytes-all 1 (1 ∷ []) refl)
  number-Holds _ _ (bool false) name out o e = rw (e, read_bytes-all 1 (0 ∷ []) refl)

  -- `bool` has the type `integer8` in a vector, and one byte.
  pub element-IsNumber :
      (t : PropertyType) (v : List ℕ)
      → IsNumber floats t v
      → IsNumber floats (get_property_type (number t)) v
  unfolding get_property_type
  element-IsNumber _ v (one_byte h) = one_byte h
  element-IsNumber _ v (two_bytes h) = two_bytes h
  element-IsNumber _ v (four_bytes h) = four_bytes h
  element-IsNumber _ v (eight_bytes h) = eight_bytes h
  element-IsNumber _ v (single h size back) = single h size back
  element-IsNumber _ v (double h) = double h
  element-IsNumber _ _ (bool true) = one_byte (refl, (omega arith, tt))
  element-IsNumber _ _ (bool false) = one_byte (refl, (omega arith, tt))

  pub element-Holds :
      (t : PropertyType) (v : List ℕ)
      → IsNumber floats t v
      → Holds floats
          (number t)
          (number_property
            (wide_type (get_property_type (number t)))
            (wide floats (get_property_type (number t)) v))
          v
  unfolding get_property_type get_property get_number read_number get_size type_code
  element-Holds _ _ (bool true) name out o e =
      rw (e, read_bytes-widened 1 (1 ∷ []) (refl, (omega arith, tt)) (omega arith))
  element-Holds _ _ (bool false) name out o e =
      rw (e, read_bytes-widened 1 (0 ∷ []) (refl, (omega arith, tt)) (omega arith))
  element-Holds _ v (one_byte h) name out o e = number-Holds _ v (one_byte h) name out o e
  element-Holds _ v (two_bytes h) name out o e = number-Holds _ v (two_bytes h) name out o e
  element-Holds _ v (four_bytes h) name out o e = number-Holds _ v (four_bytes h) name out o e
  element-Holds _ v (eight_bytes h) name out o e = number-Holds _ v (eight_bytes h) name out o e
  element-Holds _ v (single h size back) name out o e =
      number-Holds _ v (single h size back) name out o e
  element-Holds _ v (double h) name out o e = number-Holds _ v (double h) name out o e

  pub deserialize_scalar-as_json :
      (t : PropertyType) (v : List ℕ) (name : ℕ) (root : ArchiveObject)
      → IsNumber floats t v
      → deserialize_scalar name (as_json floats t v) root
        ≡ alone (add_property (number (wide_type t)) name (wide floats t v) root)
  unfolding deserialize_scalar
  deserialize_scalar-as_json _ v name root (one_byte h) = refl
  deserialize_scalar-as_json _ v name root (two_bytes h) = refl
  deserialize_scalar-as_json _ v name root (four_bytes h) = refl
  deserialize_scalar-as_json _ v name root (eight_bytes h) = refl
  deserialize_scalar-as_json _ v name root (single h _ _) = refl
  deserialize_scalar-as_json _ v name root (double h) = refl
  deserialize_scalar-as_json _ _ name root (bool true) = refl
  deserialize_scalar-as_json _ _ name root (bool false) = refl
