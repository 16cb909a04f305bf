-- ===== src/Serialization/Archive/Memory.antt =====
-- What is added to an archive is found in it, without a document in between.
use portal_framework.Base.{
  ℕ, ◌≡◌, refl, true, false, Option, none, some, List, length, ok, ◌==◌, ◌>>=◌, arith,
}
use portal_framework.Base.Ordered.{Each, Each-map}
use portal_framework.Serialization.Property.{
  PropertyType, PropertyContainerType, type_code, container_code,
}
use portal_framework.Serialization.Binary.{get_size}
use portal_framework.Serialization.Archive.{
  ArchiveObject, ArchiveProperty, bytes, empty, entry, contains, is_invalid, Shape, number, text,
  vec, matrix, array, object, vector_of, optional, Fields, no_fields, field, Value, FieldValues,
  get_property_type, number_property, packed_property, element_name, get_property_from_map,
  add_property,
}
use portal_framework.Serialization.Archive.Reading.{
  Floats, read_number, get_number, get_property, get_packed, blank,
}
use portal_framework.Serialization.Archive.Stored.{
  append, entry_of, stored, archived, is_field, AreDistinct, IsDistinct, add_property-stored,
  is_optional, contains-entry_of,
}
use portal_framework.Serialization.Archive.Found.{
  Holds, AllHold, array-Holds, vector_of-Holds, object-Holds, AllHold-HoldsFields, field-AllHold,
  property_or_none, missing-Holds, some-Holds, text-Holds,
}
use portal_framework.Serialization.Archive.Bytes.{read_bytes-all, read_bytes-concat, chunks-all}

-- A value whose numbers have the bytes of their types.
unfoldable mutual
  pub IsWhole : (s : Shape) → Value s → Type 0
  IsWhole (number t) v = (is_invalid t ≡ false) × (length v ≡ get_size t)
  IsWhole text v = Unit
  IsWhole (vec t n) v =
      (is_invalid t ≡ false) × ((length v ≡ n) × Each (λ x. length x ≡ get_size t) v)
  IsWhole (matrix t n) v =
      (is_invalid t ≡ false) × ((length v ≡ n) × Each (λ x. length x ≡ get_size t) v)
  IsWhole (array s) v = Each (IsWhole s) v
  IsWhole (object fs) v = AreWhole fs v
  IsWhole (vector_of fs) v = Each (AreWhole fs) v
  IsWhole (optional s) none = is_optional s ≡ false
  IsWhole (optional s) (some v) = IsWhole s v

  pub AreWhole : (fs : Fields) → FieldValues fs → Type 0
  AreWhole no_fields v = Unit
  AreWhole (field name s fs) v = IsWhole s v.0 × AreWhole fs v.1

module _ (floats : Floats) where
  read_number-own :
      (t : PropertyType) (v : List ℕ)
      → length v ≡ get_size t
      → read_number floats t t (bytes v) ≡ ok v
  unfolding read_number get_size type_code
  read_number-own PropertyType.floating32 v e = read_bytes-all 4 v e
  read_number-own PropertyType.floating64 v e = read_bytes-all 8 v e
  read_number-own t v e = read_bytes-all _ v e

  own-Holds :
      (t : PropertyType) (v : List ℕ)
      → is_invalid t ≡ false
      → length v ≡ get_size t
      → Holds floats (number t) (number_property t v) v
  unfolding get_property get_number
  own-Holds t v valid e name out o same = rw (same, valid, read_number-own t v e)

  packed-found :
      (own : PropertyContainerType) (t : PropertyType) (n : ℕ) (v out : List (List ℕ))
      → is_invalid t ≡ false
      → length v ≡ n
      → Each (λ x. length x ≡ get_size t) v
      → get_packed floats own t n out (packed_property own t n v) ≡ ok (true, v)
  unfolding get_packed
  packed-found own t n v out valid e h =
      let same : (container_code own == container_code own) ≡ true = ground arith in
      let full : (n == n) ≡ true = ground arith in
      rw
        (valid, same, full, read_bytes-concat n (get_size t) v e h, chunks-all n (get_size t) v e h)

  contains-archived :
      (name : ℕ) (fs : Fields) (v : FieldValues fs)
      → is_field name fs ≡ false
      → contains name (archived fs v) ≡ false
  unfolding stored contains
  contains-archived name no_fields v e = refl
  contains-archived name (field k s fs) v e =
      contains-entry_of name k (stored s v.0) (archived fs v.1) (ground arith)
        (contains-archived name fs v.1 (ground arith))

  element-Holds :
      (s : Shape) (p : Option ArchiveProperty) (x : Value s)
      → Holds floats s (property_or_none p) x
      → get_property floats s element_name (blank s) (entry_of element_name p empty) ≡ ok (true, x)
  unfolding get_property_from_map
  element-Holds s none x h = h element_name (blank s) empty refl
  element-Holds s (some p) x h = h element_name (blank s) (entry element_name p empty) refl

  mutual
    unfolding stored IsWhole IsDistinct AllHold get_property

    stored-Holds :
        (s : Shape) (v : Value s)
        → IsDistinct s
        → IsWhole s v
        → Holds floats s (property_or_none (stored s v)) v
    stored-Holds (number t) v d (valid, e) = own-Holds t v valid e
    stored-Holds text v d h = text-Holds floats v
    stored-Holds (vec t n) v d (valid, (e, h)) =
        λ name out o same. rw (same, packed-found PropertyContainerType.vector t n v out valid e h)
    stored-Holds (matrix t n) v d (valid, (e, h)) =
        λ name out o same. rw (same, packed-found PropertyContainerType.matrix t n v out valid e h)
    stored-Holds (array s) v d h =
        array-Holds floats s (get_property_type s) (stored s) v
          (Each-map v (λ x g. element-Holds s (stored s x) x (stored-Holds s x d g)) h)
    stored-Holds (object fs) v (some_field, d) h =
        object-Holds floats fs (archived fs v) v some_field
          (AllHold-HoldsFields floats fs (archived fs v) v (archived-AllHold fs v d h))
    stored-Holds (vector_of fs) v d h = vector_of-Holds floats fs (archived fs) v (
        Each-map v
          (λ x g. AllHold-HoldsFields floats fs (archived fs x) x (archived-AllHold fs x d g)) h)
    stored-Holds (optional s) none d h = missing-Holds floats s h
    stored-Holds (optional s) (some v) d h =
        some-Holds floats s (stored s v) v (stored-Holds s v d h)

    archived-AllHold :
        (fs : Fields) (v : FieldValues fs)
        → AreDistinct fs
        → AreWhole fs v
        → AllHold floats fs (archived fs v) v
    archived-AllHold no_fields v d h = tt
    archived-AllHold (field name s fs) v (new, (d, ds)) (h, hs) =
        field-AllHold floats name s fs (stored s v.0) (archived fs v.1) v.0 v.1 new
          (contains-archived name fs v.1 new) (stored-Holds s v.0 d h)
          (archived-AllHold fs v.1 ds hs)

get_property_from_map-append :
    (name : ℕ) (p : Option ArchiveProperty) (o : ArchiveObject)
    → contains name o ≡ false
    → get_property_from_map name (append o (entry_of name p empty)) ≡ property_or_none p
unfolding contains get_property_from_map
get_property_from_map-append name none empty e = refl
get_property_from_map-append name (some p) empty e = ground arith
get_property_from_map-append name p (entry k q o) e =
    ground (arith, get_property_from_map-append name p o)

-- A value that is added to an archive under a new name is found there, whatever the out parameter
-- holds: of any shape in which each aggregate has a field and the fields of an object have names that
-- differ, with numbers that have the bytes of their types, and with no optional value that holds an
-- empty one.
pub get_property-add_property_shape :
    (floats : Floats) (s : Shape) (name : ℕ) (v out : Value s) (o : ArchiveObject)
    → IsDistinct s
    → IsWhole s v
    → contains name o ≡ false
    → (add_property s name v o >>= get_property floats s name out) ≡ ok (true, v)
get_property-add_property_shape floats s name v out o d h e = rw (
  add_property-stored s name v o d e,
  stored-Holds floats s v d h name out (append o (entry_of name (stored s v) empty))
      (get_property_from_map-append name (stored s v) o e),
)
