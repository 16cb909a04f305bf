-- ===== src/Serialization/Archive/Reading.antt =====
-- serialization/portal/serialization/archive.h: `get_property`, which tells whether the value was
-- found, and gives the out parameter as it leaves it. That parameter starts with a given value.
use portal_framework.Base.{
  ℕ, zero, suc, ◌-◌, ◌*◌, Bool, true, false, Option, none, some, List, [], ◌∷◌, ◌++◌, length, take,
  drop, replicate, Result, ok, err, Error, ltb, ◌==◌, ◌&&◌, if◌then◌else◌, ◌>>=◌,
}
use portal_framework.Serialization.Property.{
  PropertyType, PropertyContainerType, type_code, container_code,
}
use portal_framework.Serialization.Binary.{get_size}
use portal_framework.Serialization.Values.{chunks}
use portal_framework.Serialization.Archive.{
  ArchiveObject, ArchiveProperty, property, Contents, bytes, objects, ArchiveObjects, nil, more,
  get_property_from_map, is_invalid, Shape, number, text, vec, matrix, array, object, vector_of,
  optional, Fields, no_fields, field, has_fields, Value, FieldValues, element_name,
}

-- The conversions between `float` and `double`, by their bytes.
pub record Floats : Type 0 where
  pub to_double : List ℕ → List ℕ
  pub to_float : List ℕ → List ℕ

-- A read of `n` bytes at the start of a buffer.
unfoldable pub read_bytes : ℕ → Contents → Result (List ℕ)
read_bytes n (bytes b) = if ltb (length b) n then err Error.undefined_access else ok (take n b)
read_bytes n (objects os) = err Error.undefined_access

abbrev pub same_type : PropertyType → PropertyType → Bool
same_type t u = type_code t == type_code u

abbrev pub is_container : PropertyContainerType → PropertyContainerType → Bool
is_container c d = container_code c == container_code d

-- What is found in a buffer, and what is not.
abbrev pub found {ℓ} : {A : Type ℓ} → Result A → Result (Bool × A)
found r = r >>= λ v. ok (true, v)

abbrev pub missing {ℓ} : {A : Type ℓ} → A → Result (Bool × A)
missing out = ok (false, out)

-- A floating-point value whose property has the other type is converted.
unfoldable pub read_number : Floats → PropertyType → PropertyType → Contents → Result (List ℕ)
read_number floats PropertyType.floating32 u value =
    if same_type u PropertyType.floating32
    then read_bytes 4 value
    else (read_bytes 8 value >>= λ x. ok (floats.to_float x))
read_number floats PropertyType.floating64 u value =
    if same_type u PropertyType.floating64
    then read_bytes 8 value
    else (read_bytes 4 value >>= λ x. ok (floats.to_double x))
read_number floats t u value = read_bytes (get_size t) value

unfoldable pub get_number :
    Floats → PropertyType → List ℕ → ArchiveProperty → Result (Bool × List ℕ)
get_number floats t out (property value u c n) =
    if is_invalid u then missing out else found (read_number floats t u value)

abbrev text_length : PropertyContainerType → ℕ → ℕ
text_length c n =
    if is_container c PropertyContainerType.null_term_string
    then n - 1
    else if is_container c PropertyContainerType.string
    then n
    else 0

unfoldable pub get_text : List ℕ → ArchiveProperty → Result (Bool × List ℕ)
get_text out (property value u c n) =
    if is_invalid u then missing out else found (read_bytes (text_length c n) value)

-- The loops over `n` objects: an element that is not found ends them.
abbrev pub get_each {ℓ} :
    {A : Type ℓ} → (ArchiveObject → Result (Bool × A)) → ℕ → ArchiveObjects → Result (Bool × List A)
get_each get zero os = ok (true, [])
get_each get (suc n) nil = err Error.undefined_access
get_each get (suc n) (more o os) = do
  first ← get o
  if first.0 then (get_each get n os >>= λ rest. ok (rest.0, first.1 ∷ rest.1)) else ok (false, [])

-- The objects that stand in a buffer.
abbrev pub objects_in : Contents → ArchiveObjects
objects_in (bytes b) = nil
objects_in (objects os) = os

-- `format_array`
unfoldable pub get_array {ℓ} :
    {A : Type ℓ} → (ArchiveObject → Result (Bool × A)) → ArchiveProperty → Result (Bool × List A)
get_array get (property value u c n) =
    if is_container c PropertyContainerType.invalid
    then missing []
    else if is_container c PropertyContainerType.array
    then get_each get n (objects_in value)
    else err Error.assertion_failed

-- `format_vec` and `format_mat` write the elements that they find into the out parameter.
abbrev overwrite : ℕ → List (List ℕ) → Bool × List (List ℕ) → Result (Bool × List (List ℕ))
overwrite n out (all, xs) = ok (all, take n (xs ++ drop (length xs) out))

unfoldable pub get_packed :
    Floats
    → PropertyContainerType
    → PropertyType
    → ℕ
    → List (List ℕ)
    → ArchiveProperty
    → Result (Bool × List (List ℕ))
get_packed floats own t n out (property value u c m) =
    let size : ℕ = n * get_size t in
    if is_invalid u
    then missing out
    else if is_container c own
    then (if m == n
        then found (read_bytes size value >>= λ b. ok (chunks n (get_size t) b))
        else err Error.assertion_failed)
    else if is_container c PropertyContainerType.array && m == n
    then (get_each (λ o. get_number floats t [] (get_property_from_map element_name o)) n
          (objects_in value)
        >>= overwrite n out)
    else missing out

-- `get_object`: the object in the property, if it is one.
unfoldable pub get_object : ℕ → ArchiveObject → Option ArchiveObject
get_object name o = child (get_property_from_map name o)
  where
    child : ArchiveProperty → Option ArchiveObject
    child (property (objects (more q os)) PropertyType.invalid c n) = none
    child (property (objects (more q os)) u PropertyContainerType.object n) = some q
    child p = none

-- What a value is before it is read.
unfoldable mutual
  pub blank : (s : Shape) → Value s
  blank (number t) = replicate (get_size t) 0
  blank text = []
  blank (vec t n) = replicate n (replicate (get_size t) 0)
  blank (matrix t n) = replicate n (replicate (get_size t) 0)
  blank (array s) = []
  blank (object fs) = blank_fields fs
  blank (vector_of fs) = []
  blank (optional s) = none

  pub blank_fields : (fs : Fields) → FieldValues fs
  blank_fields no_fields = tt
  blank_fields (field name s fs) = (blank s, blank_fields fs)

abbrev pub if_found {ℓ} : {A : Type ℓ} → Bool × A → Result (Bool × Option A)
if_found (true, v) = ok (true, some v)
if_found (false, v) = ok (true, none)

abbrev pub if_object {ℓ} :
    {A : Type ℓ} → A → (ArchiveObject → Result A) → Option ArchiveObject → Result (Bool × A)
if_object out get none = missing out
if_object out get (some o) = found (get o)

module _ (floats : Floats) where
  unfoldable mutual
    pub get_property : (s : Shape) → ℕ → Value s → ArchiveObject → Result (Bool × Value s)
    get_property (number t) name out o = get_number floats t out (get_property_from_map name o)
    get_property text name out o = get_text out (get_property_from_map name o)
    get_property (vec t n) name out o =
        get_packed floats PropertyContainerType.vector t n out (get_property_from_map name o)
    get_property (matrix t n) name out o =
        get_packed floats PropertyContainerType.matrix t n out (get_property_from_map name o)
    get_property (array s) name out o =
        get_array (λ q. get_property s element_name (blank s) q) (get_property_from_map name o)
    get_property (object fs) name out o =
        if has_fields fs
        then if_object out (λ q. dearchive fs out q) (get_object name o)
        else missing out
    get_property (vector_of fs) name out o =
        get_array (λ q. found (dearchive fs (blank_fields fs) q)) (get_property_from_map name o)
    get_property (optional s) name out o = get_property s name (blank s) o >>= if_found

    -- The fields, one `get_property` each: one that is not found keeps what it was.
    pub dearchive : (fs : Fields) → FieldValues fs → ArchiveObject → Result (FieldValues fs)
    dearchive no_fields out o = ok tt
    dearchive (field name s fs) out o = do
      first ← get_property s name out.0 o
      rest ← dearchive fs out.1 o
      ok (first.1, rest)
