-- ===== src/Serialization/Archive.antt =====
-- serialization/portal/serialization/archive.h and .cpp: `ArchiveObject`, the named properties that
-- `add_property` writes and `get_property` reads. The overloads are told apart by the shape of the
-- value's type. Names are only compared, and stand as numbers; a number is the list of its bytes.
-- `PORTAL_ASSERT` ends the call with an error, and so does a read outside a buffer.
pub mod Reading
pub mod Blobs
pub mod Bytes
pub mod Memory
mod Tests
pub mod Stored
pub mod Found
mod Touched
use portal_framework.Base.{
  ℕ, zero, suc, ◌+◌, Bool, true, false, Option, none, some, List, [], ◌∷◌, ◌++◌, length, Result, ok,
  err, Error, ◌==◌, ◌||◌, if◌then◌else◌, ◌>>=◌,
}
use portal_framework.Serialization.Property.{PropertyType, PropertyContainerType, type_code}
use portal_framework.Serialization.Values.{concat}

-- `reflection::Property`, whose buffer holds bytes or other archive objects, one behind another.
mutual
  pub data ArchiveObject : Type 0 where
    empty : ArchiveObject
    entry : ℕ → ArchiveProperty → ArchiveObject → ArchiveObject

  pub data ArchiveProperty : Type 0 where
    property : Contents → PropertyType → PropertyContainerType → ℕ → ArchiveProperty

  pub data Contents : Type 0 where
    bytes : List ℕ → Contents
    objects : ArchiveObjects → Contents

  pub data ArchiveObjects : Type 0 where
    nil : ArchiveObjects
    more : ArchiveObject → ArchiveObjects → ArchiveObjects

-- `Property{}`
abbrev pub no_property : ArchiveProperty
no_property = property (bytes []) PropertyType.invalid PropertyContainerType.invalid 0

unfoldable pub contains : ℕ → ArchiveObject → Bool
contains name empty = false
contains name (entry k p o) = k == name || contains name o

-- `property_map[name]`, which is `Property{}` for a name that is missing: the property, and the archive
-- that the call leaves, where that property stands at the name. Reads do not find a difference
-- (Touched), so `get_property` leaves the archive as it was.
unfoldable pub get_property_from_map : ℕ → ArchiveObject → ArchiveProperty
get_property_from_map name empty = no_property
get_property_from_map name (entry k p o) = if k == name then p else get_property_from_map name o

unfoldable pub touch : ℕ → ArchiveObject → ArchiveObject
touch name empty = entry name no_property empty
touch name (entry k p o) = if k == name then entry k p o else entry k p (touch name o)

abbrev pub type_of : ArchiveProperty → PropertyType
type_of (property v t c n) = t

abbrev pub is_invalid : PropertyType → Bool
is_invalid t = type_code t == type_code PropertyType.invalid

abbrev pub assign : ℕ → ArchiveProperty → ArchiveObject → ArchiveObject
assign name q empty = entry name q empty
assign name q (entry k p o) = if k == name then entry k q o else entry k p (assign name q o)

unfoldable pub add_property_to_map : ℕ → ArchiveProperty → ArchiveObject → Result ArchiveObject
add_property_to_map name q o =
    let t = type_of (get_property_from_map name o) in
    if is_invalid t || type_code t == type_code (type_of q)
    then ok (assign name q o)
    else err Error.assertion_failed

-- The types of values: numbers of a property type (also characters, whose type is `integer8`, and
-- `bool`), strings (also paths, and enumerations and `StringId` through their text), GLM vectors and
-- matrices with their number of elements, vectors of values, aggregates that `glz::reflect` lists,
-- vectors of objects that archive their fields by name, and optional values.
mutual
  pub data Shape : Type 0 where
    number : PropertyType → Shape
    text : Shape
    vec matrix : PropertyType → ℕ → Shape
    array : Shape → Shape
    object vector_of : Fields → Shape
    optional : Shape → Shape

  pub data Fields : Type 0 where
    no_fields : Fields
    field : ℕ → Shape → Fields → Fields

-- `N > 0`
abbrev pub has_fields : Fields → Bool
has_fields no_fields = false
has_fields (field name s fs) = true

abbrev mutual
  pub Value : Shape → Type 0
  Value (number t) = List ℕ
  Value text = List ℕ
  Value (vec t n) = List (List ℕ)
  Value (matrix t n) = List (List ℕ)
  Value (array s) = List (Value s)
  Value (object fs) = FieldValues fs
  Value (vector_of fs) = List (FieldValues fs)
  Value (optional s) = Option (Value s)

  pub FieldValues : Fields → Type 0
  FieldValues no_fields = Unit
  FieldValues (field name s fs) = Value s × FieldValues fs

-- `get_property_type<T>()`, and the string test in front of it: `bool` is an integral type.
unfoldable pub get_property_type : Shape → PropertyType
get_property_type (number PropertyType.boolean) = PropertyType.integer8
get_property_type (number t) = t
get_property_type text = PropertyType.null_term_string
get_property_type s = PropertyType.binary

abbrev pub number_property : PropertyType → List ℕ → ArchiveProperty
number_property t v = property (bytes v) t PropertyContainerType.scalar 1

abbrev pub text_property : List ℕ → ArchiveProperty
text_property v =
    property (bytes (v ++ (0 ∷ []))) PropertyType.character PropertyContainerType.null_term_string
      (length v + 1)

abbrev pub packed_property :
    PropertyContainerType → PropertyType → ℕ → List (List ℕ) → ArchiveProperty
packed_property c t n v = property (bytes (concat v)) t c n

abbrev pub array_property : PropertyType → ℕ → ArchiveObjects → ArchiveProperty
array_property t n os = property (objects os) t PropertyContainerType.array n

-- The property that `create_child` adds, once the child is filled.
abbrev pub object_property : ArchiveObject → ArchiveProperty
object_property o =
    property (objects (more o nil)) PropertyType.object PropertyContainerType.object 1

-- The loops over the elements of a vector: each is archived into an object of its own.
abbrev pub archive_each {ℓ} :
    {A : Type ℓ} → (A → ArchiveObject → Result ArchiveObject) → List A → Result ArchiveObjects
archive_each archive [] = ok nil
archive_each archive (x ∷ xs) = do o ← archive x empty; os ← archive_each archive xs; ok (more o os)

-- The name "v".
abbrev pub element_name : ℕ
element_name = 118

unfoldable mutual
  pub add_property : (s : Shape) → ℕ → Value s → ArchiveObject → Result ArchiveObject
  add_property (number t) name v o = add_property_to_map name (number_property t v) o
  add_property text name v o = add_property_to_map name (text_property v) o
  add_property (vec t n) name v o =
      add_property_to_map name (packed_property PropertyContainerType.vector t n v) o
  add_property (matrix t n) name v o =
      add_property_to_map name (packed_property PropertyContainerType.matrix t n v) o
  add_property (array s) name v o = do
    os ← archive_each (add_property s element_name) v
    add_property_to_map name (array_property (get_property_type s) (length v) os) o
  add_property (object fs) name v o = do
    child ← archive fs v empty
    if has_fields fs then add_property_to_map name (object_property child) o else ok o
  add_property (vector_of fs) name v o = do
    os ← archive_each (archive fs) v
    add_property_to_map name (array_property PropertyType.object (length v) os) o
  add_property (optional s) name none o = ok o
  add_property (optional s) name (some v) o = add_property s name v o

  -- The fields, one `add_property` each.
  pub archive : (fs : Fields) → FieldValues fs → ArchiveObject → Result ArchiveObject
  archive no_fields v o = ok o
  archive (field name s fs) v o = do o' ← add_property s name v.0 o; archive fs v.1 o'
