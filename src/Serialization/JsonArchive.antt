-- ===== src/Serialization/JsonArchive.antt =====
-- serialization/portal/serialization/archive/json_archive.h and .cpp: an archive as a JSON document.
-- The JSON library is a parameter: its values are those of the kinds that the code switches on.
pub mod Deserialize
pub mod Written
pub mod Numbers
pub mod Prepared
pub mod Grown
pub mod Reread
pub mod Faults
mod Tests
pub mod RoundTrip
use portal_framework.Base.{
  ℕ, zero, suc, ◌+◌, ◌-◌, ◌*◌, ◌^◌, ltb, Bool, true, false, Option, none, some, List, [], ◌∷◌, ◌++◌,
  length, take, Result, ok, err, Error, ◌==◌, ◌||◌, not, if◌then◌else◌, ◌>>=◌,
}
use portal_framework.Serialization.Property.{PropertyType, PropertyContainerType, type_code}
use portal_framework.Serialization.Binary.{to_bytes, of_bytes, get_size}
use portal_framework.Serialization.Values.{chunks}
use portal_framework.Serialization.Archive.{
  ArchiveObject, empty, entry, ArchiveProperty, property, Contents, bytes, objects, ArchiveObjects,
  nil, more, get_property_from_map, add_property_to_map, no_property, number_property,
  text_property, array_property, object_property, archive_each, element_name,
}
use portal_framework.Serialization.Archive.Reading.{Floats, read_bytes, same_type, objects_in}

-- A number is its pattern of 64 bits: `number_integer` in two's complement, `number_float` by its
-- bytes. A string is the list of its bytes, and so is a block of binary data.
mutual
  pub data Json : Type 0 where
    null discarded : Json
    object : Members → Json
    array : Elements → Json
    string binary : List ℕ → Json
    boolean : Bool → Json
    number_integer number_unsigned : ℕ → Json
    number_float : List ℕ → Json

  pub data Members : Type 0 where
    no_members : Members
    member : ℕ → Json → Members → Members

  pub data Elements : Type 0 where
    no_elements : Elements
    element : Json → Elements → Elements

-- What the code calls of the library: `parse` without exceptions, the printing of a document with an
-- indentation, `get<T>` for the types that it is called with, and the names that `items` gives to the
-- elements of an array and to a value that is neither an array nor an object.
pub record JsonLibrary : Type 0 where
  pub parse : List ℕ → Json
  pub print : ℕ → Json → List ℕ
  pub get_integer : Json → Result ℕ
  pub get_unsigned : Json → Result ℕ
  pub get_float : Json → Result (List ℕ)
  pub get_string : Json → Result (List ℕ)
  pub index_name : ℕ → ℕ
  pub whole_name : ℕ

unfoldable pub has_member : ℕ → Members → Bool
has_member name no_members = false
has_member name (member k j ms) = k == name || has_member name ms

abbrev replace : ℕ → Json → Members → Members
replace name j no_members = no_members
replace name j (member k i ms) = if k == name then member k j ms else member k i (replace name j ms)

-- `archive_object[key] = value`
unfoldable pub set_member : ℕ → Json → Members → Members
set_member name j ms = if has_member name ms then replace name j ms else member name j ms

-- The 64 bits of a signed byte.
abbrev sign_extend : ℕ → ℕ
sign_extend b = if ltb b 128 then b else b + (2 ^ 64 - 256)

-- A vector of the library's type.
abbrev pub each_element {ℓ} : {A : Type ℓ} → (A → Json) → List A → Elements
each_element f [] = no_elements
each_element f (x ∷ xs) = element (f x) (each_element f xs)

-- The loop of `extract_array_elements`: the property "v" of each object.
abbrev pub elements_to_json : (ArchiveProperty → Result Json) → ℕ → ArchiveObjects → Result Elements
elements_to_json extract zero os = ok no_elements
elements_to_json extract (suc n) nil = err Error.undefined_access
elements_to_json extract (suc n) (more o os) = do
  j ← extract (get_property_from_map element_name o)
  js ← elements_to_json extract n os
  ok (element j js)

-- `std::string(data, elements_number - skew)`
abbrev pub text_element : ℕ → ArchiveProperty → Result Json
text_element skew (property value u c n) = read_bytes (n - skew) value >>= λ b. ok (string b)

abbrev byte_element : ArchiveProperty → Result Json
byte_element (property value u c n) = read_bytes 1 value >>= λ b. ok (number_unsigned (of_bytes b))

abbrev extract_array_elements :
    (ArchiveProperty → Result Json) → ℕ → Contents → Result (Option Json)
extract_array_elements extract n value =
    elements_to_json extract n (objects_in value) >>= λ js. ok (some (array js))

-- The characters of a string up to its zero.
abbrev pub until_zero : List ℕ → Result (List ℕ)
until_zero [] = err Error.undefined_access
until_zero (c ∷ cs) =
    let rest = until_zero cs in if c == 0 then ok [] else (rest >>= λ s. ok (c ∷ s))

abbrev null_term_to_json : Contents → Result Json
null_term_to_json (bytes b) = until_zero b >>= λ s. ok (string s)
null_term_to_json (objects os) = err Error.undefined_access

module _ (floats : Floats) where
  -- A number of a type as JSON; `none` for the types that are not archived as numbers.
  unfoldable pub number_to_json : PropertyType → List ℕ → Option Json
  number_to_json PropertyType.integer8 b = some (number_unsigned (of_bytes b))
  number_to_json PropertyType.integer16 b = some (number_unsigned (of_bytes b))
  number_to_json PropertyType.integer32 b = some (number_unsigned (of_bytes b))
  number_to_json PropertyType.integer64 b = some (number_unsigned (of_bytes b))
  number_to_json PropertyType.floating32 b = some (number_float (floats.to_double b))
  number_to_json PropertyType.floating64 b = some (number_float b)
  number_to_json PropertyType.character b = some (number_integer (sign_extend (of_bytes b)))
  number_to_json PropertyType.boolean b = some (boolean (not (of_bytes b == 0)))
  number_to_json t b = none

  -- The scalar properties.
  unfoldable pub scalar_to_json : PropertyType → Contents → Result (Option Json)
  scalar_to_json t value = elim (number_to_json t []) [
    | none ↦ ok none
    | some _ ↦ read_bytes (get_size t) value >>= λ b. ok (number_to_json t b)
  ]

  abbrev pub number_element : PropertyType → ArchiveProperty → Result Json
  number_element t (property value u c n) = do
    j ← scalar_to_json t value
    elim j [ none ↦ err Error.undefined_access | some i ↦ ok i ]

  -- The arrays of everything but objects.
  unfoldable pub array_to_json : PropertyType → ℕ → Contents → Result (Option Json)
  array_to_json PropertyType.null_term_string n value =
      extract_array_elements (text_element 1) n value
  array_to_json PropertyType.string n value = extract_array_elements (text_element 0) n value
  array_to_json PropertyType.binary n value = extract_array_elements byte_element n value
  array_to_json t n value = elim (number_to_json t []) [
    | none ↦ ok none
    | some _ ↦ extract_array_elements (number_element t) n value
  ]

  -- `serialize_vec` and `serialize_mat`: a type that they do not archive leaves the null value that
  -- `archive_object[key]` has made.
  abbrev all_numbers : (List ℕ → Json) → ℕ → ℕ → Contents → Result Json
  all_numbers f size n value =
      read_bytes (n * size) value >>= λ b. ok (array (each_element f (chunks n size b)))

  abbrev unsigned_of : List ℕ → Json
  unsigned_of b = number_unsigned (of_bytes b)

  unfoldable pub serialize_vec : PropertyType → ℕ → Contents → Result Json
  serialize_vec PropertyType.integer8 n value = all_numbers unsigned_of 1 n value
  serialize_vec PropertyType.integer16 n value = all_numbers unsigned_of 2 n value
  serialize_vec PropertyType.integer32 n value = all_numbers unsigned_of 4 n value
  serialize_vec PropertyType.integer64 n value = all_numbers unsigned_of 8 n value
  serialize_vec PropertyType.floating32 n value =
      all_numbers (λ b. number_float (floats.to_double b)) 4 n value
  serialize_vec PropertyType.floating64 n value = all_numbers number_float 8 n value
  serialize_vec t n value = ok null

  abbrev present : Result Json → Result (Option Json)
  present r = r >>= λ j. ok (some j)

  abbrev put : ℕ → Option Json → Members → Members
  put name none ms = ms
  put name (some j) ms = set_member name j ms

  -- The entries of the map in an order of its own: here from the last one on.
  unfoldable mutual
    pub prepare_object : ArchiveObject → Result Members
    prepare_object empty = ok no_members
    prepare_object (entry name p o) = do
      ms ← prepare_object o
      j ← prepare_property p
      ok (put name j ms)

    pub prepare_property : ArchiveProperty → Result (Option Json)
    prepare_property (property value t PropertyContainerType.object n) = do
      j ← prepare_child value
      if same_type t PropertyType.object then ok j else err Error.assertion_failed
    prepare_property (property value t PropertyContainerType.scalar n) = scalar_to_json t value
    prepare_property (property value PropertyType.object PropertyContainerType.array n) =
        prepare_objects n value
    prepare_property (property value t PropertyContainerType.array n) = array_to_json t n value
    prepare_property (property value t PropertyContainerType.string n) =
        present (read_bytes n value >>= λ b. ok (string b))
    prepare_property (property value t PropertyContainerType.null_term_string n) =
        present (null_term_to_json value)
    prepare_property (property value t PropertyContainerType.vector n) =
        present (serialize_vec t n value)
    prepare_property (property value t PropertyContainerType.matrix n) =
        present (serialize_vec t n value)
    prepare_property (property value t PropertyContainerType.invalid n) = ok none
    prepare_property (property value t (PropertyContainerType.unnamed c) n) = ok none

    prepare_child : Contents → Result (Option Json)
    prepare_child (objects (more o os)) = prepare_object o >>= λ ms. ok (some (object ms))
    prepare_child value = err Error.undefined_access

    prepare_objects : ℕ → Contents → Result (Option Json)
    prepare_objects zero value = ok (some (array no_elements))
    prepare_objects (suc n) (objects os) =
        prepare_elements (suc n) os >>= λ js. ok (some (array js))
    prepare_objects (suc n) (bytes b) = err Error.undefined_access

    prepare_elements : ℕ → ArchiveObjects → Result Elements
    prepare_elements zero os = ok no_elements
    prepare_elements (suc n) nil = err Error.undefined_access
    prepare_elements (suc n) (more o os) = do
      ms ← prepare_object o
      js ← prepare_elements n os
      ok (element (object ms) js)
