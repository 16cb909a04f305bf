-- ===== src/Serialization/JsonArchive/Written.antt =====
-- The JSON document of an archive, and the archive that is read from it, written out as values.
use portal_framework.Base.{
  ℕ, ◌<◌, ◌≡◌, ◌≢◌, not, Bool, true, false, Option, none, some, List, [], ◌∷◌, map, length, ◌==◌,
}
use portal_framework.Base.Ordered.{Each}
use portal_framework.Serialization.Property.{PropertyType}
use portal_framework.Serialization.Binary.{to_bytes, of_bytes}
use portal_framework.Serialization.Values.{bool_bytes}
use portal_framework.Serialization.Archive.{
  ArchiveObject, empty, entry, ArchiveProperty, Shape, number, text, vec, matrix, array, object,
  vector_of, optional, Fields, no_fields, field, Value, FieldValues, get_property_type,
  number_property, text_property, array_property, object_property, element_name,
}
use portal_framework.Serialization.Archive.Reading.{Floats}
use portal_framework.Serialization.Archive.Stored.{entry_of, is_optional, each_object}
use portal_framework.Serialization.JsonArchive.{
  Json, Members, no_members, member, string, number_unsigned, number_float, each_element,
}
use portal_framework.Serialization.JsonArchive.Deserialize.{empty_array}

abbrev pub member_of : ℕ → Option Json → Members → Members
member_of name none ms = ms
member_of name (some j) ms = member name j ms

-- The type and the bytes of a number that JSON has carried.
abbrev pub wide_type : PropertyType → PropertyType
wide_type PropertyType.integer8 = PropertyType.integer64
wide_type PropertyType.integer16 = PropertyType.integer64
wide_type PropertyType.integer32 = PropertyType.integer64
wide_type PropertyType.floating32 = PropertyType.floating64
wide_type t = t

abbrev pub HasBytes : ℕ → List ℕ → Type 0
HasBytes n v = (length v ≡ n) × Each (λ b. b < 256) v

-- Only the archive itself takes empty vectors.
abbrev pub IsFilled {ℓ} : {A : Type ℓ} → Bool → List A → Type 0
IsFilled true v = Unit
IsFilled false [] = ⊥
IsFilled false (x ∷ xs) = Unit

-- The types of the numbers that JSON carries.
pub data IsArithmetic : PropertyType → Type 0 where
  integer8 : IsArithmetic PropertyType.integer8
  integer16 : IsArithmetic PropertyType.integer16
  integer32 : IsArithmetic PropertyType.integer32
  integer64 : IsArithmetic PropertyType.integer64
  floating32 : IsArithmetic PropertyType.floating32
  floating64 : IsArithmetic PropertyType.floating64
  boolean : IsArithmetic PropertyType.boolean

-- A number has the bytes of its type, and a `float` is one that `double` carries (every `float` but
-- a NaN).
pub data IsNumber (floats : Floats) : PropertyType → List ℕ → Type 0 where
  one_byte : {v : List ℕ} → HasBytes 1 v → IsNumber floats PropertyType.integer8 v
  two_bytes : {v : List ℕ} → HasBytes 2 v → IsNumber floats PropertyType.integer16 v
  four_bytes : {v : List ℕ} → HasBytes 4 v → IsNumber floats PropertyType.integer32 v
  eight_bytes : {v : List ℕ} → HasBytes 8 v → IsNumber floats PropertyType.integer64 v
  single :
      {v : List ℕ}
      → length v ≡ 4
      → length (floats.to_double v) ≡ 8
      → floats.to_float (floats.to_double v) ≡ v
      → IsNumber floats PropertyType.floating32 v
  double : {v : List ℕ} → length v ≡ 8 → IsNumber floats PropertyType.floating64 v
  bool : (b : Bool) → IsNumber floats PropertyType.boolean (bool_bytes b)

-- The vectors that JSON carries.
pub data IsElements (floats : Floats) (top : Bool) : (s : Shape) → List (Value s) → Type 0 where
  numbers :
      {t : PropertyType} {v : List (List ℕ)}
      → IsArithmetic t
      → IsFilled top v
      → Each (IsNumber floats t) v
      → IsElements floats top (number t) v
  texts : {v : List (List ℕ)} → IsFilled top v → IsElements floats top text v

abbrev pub texts_read : List (List ℕ) → ArchiveProperty
texts_read [] = empty_array
texts_read (x ∷ xs) =
    array_property PropertyType.null_term_string (length (x ∷ xs))
      (each_object (λ y. entry element_name (text_property y) empty) (x ∷ xs))

abbrev pub objects_read {ℓ} : {A : Type ℓ} → (A → ArchiveObject) → List A → ArchiveProperty
objects_read f [] = empty_array
objects_read f (x ∷ xs) =
    array_property PropertyType.object (length (x ∷ xs)) (each_object f (x ∷ xs))

module _ (floats : Floats) where
  abbrev pub wide : PropertyType → List ℕ → List ℕ
  wide PropertyType.integer8 v = to_bytes 8 (of_bytes v)
  wide PropertyType.integer16 v = to_bytes 8 (of_bytes v)
  wide PropertyType.integer32 v = to_bytes 8 (of_bytes v)
  wide PropertyType.integer64 v = to_bytes 8 (of_bytes v)
  wide PropertyType.floating32 v = floats.to_double v
  wide t v = v

  abbrev pub as_json : PropertyType → List ℕ → Json
  as_json PropertyType.floating32 v = number_float (floats.to_double v)
  as_json PropertyType.floating64 v = number_float v
  as_json PropertyType.boolean v = Json.boolean (not (of_bytes v == 0))
  as_json t v = number_unsigned (of_bytes v)

  abbrev pub numbers_read : PropertyType → List (List ℕ) → ArchiveProperty
  numbers_read t [] = empty_array
  numbers_read t (x ∷ xs) = array_property (wide_type t) (length (map (wide t) (x ∷ xs))) (
      each_object (λ y. entry element_name (number_property (wide_type t) y) empty)
        (map (wide t) (x ∷ xs)))

  unfoldable mutual
    unfolding get_property_type

    pub json_of : (s : Shape) → Value s → Option Json
    json_of (number t) v = some (as_json t v)
    json_of text v = some (string v)
    json_of (vec t n) v = some (Json.array (each_element (λ x. as_json t x) v))
    json_of (matrix t n) v = some (Json.array (each_element (λ x. as_json t x) v))
    json_of (array (number t)) v =
        some (Json.array (each_element (λ x. as_json (get_property_type (number t)) x) v))
    json_of (array text) v = some (Json.array (each_element string v))
    json_of (array s) v = none
    json_of (object fs) v = some (Json.object (json_members fs v))
    json_of (vector_of fs) v =
        some (Json.array (each_element (λ x. Json.object (json_members fs x)) v))
    json_of (optional s) none = none
    json_of (optional s) (some v) = json_of s v

    pub json_members : (fs : Fields) → FieldValues fs → Members
    json_members no_fields v = no_members
    json_members (field name s fs) v = member_of name (json_of s v.0) (json_members fs v.1)

  unfoldable mutual
    pub reread : (s : Shape) → Value s → Option ArchiveProperty
    reread (number t) v = some (number_property (wide_type t) (wide t v))
    reread text v = some (text_property v)
    reread (vec t n) v = some (numbers_read t v)
    reread (matrix t n) v = some (numbers_read t v)
    reread (array (number t)) v = some (numbers_read (get_property_type (number t)) v)
    reread (array text) v = some (texts_read v)
    reread (array s) v = none
    reread (object fs) v = some (object_property (reread_fields fs v))
    reread (vector_of fs) v = some (objects_read (λ x. reread_fields fs x) v)
    reread (optional s) none = none
    reread (optional s) (some v) = reread s v

    pub reread_fields : (fs : Fields) → FieldValues fs → ArchiveObject
    reread_fields no_fields v = empty
    reread_fields (field name s fs) v = entry_of name (reread s v.0) (reread_fields fs v.1)

  -- The numbers of a GLM vector or matrix.
  abbrev pub IsPacked : PropertyType → ℕ → List (List ℕ) → Type 0
  IsPacked t n v =
      IsArithmetic t
      × ((t ≢ PropertyType.boolean) × ((length v ≡ n) × ((0 < n) × Each (IsNumber floats t) v)))

  -- A value that JSON carries: `top` for one that stands in the archive itself.
  unfoldable mutual
    pub IsStorable : Bool → (s : Shape) → Value s → Type 0
    IsStorable top (number t) v = IsNumber floats t v
    IsStorable top text v = Each (λ c. (c == 0) ≡ false) v
    IsStorable top (vec t n) v = IsPacked t n v
    IsStorable top (matrix t n) v = IsPacked t n v
    IsStorable top (array s) v = IsElements floats top s v
    IsStorable top (object fs) v = AreStorable false fs v
    IsStorable top (vector_of fs) v = IsFilled top v × Each (AreStorable false fs) v
    IsStorable top (optional s) none = is_optional s ≡ false
    IsStorable top (optional s) (some v) = IsStorable top s v

    pub AreStorable : Bool → (fs : Fields) → FieldValues fs → Type 0
    AreStorable top no_fields v = Unit
    AreStorable top (field name s fs) v = IsStorable top s v.0 × AreStorable top fs v.1
