-- ===== src/Serialization/Property.antt =====
-- core/portal/core/reflection/property.h: the tagged bytes that serializers write.
-- An enumeration of C++ holds any byte: `unnamed` is a value without a name.
use portal_framework.Base.{ℕ, ◌*◌, ◌≡◌, List, [], ◌∷◌, get_or, ◌==◌, if◌then◌else◌}

pub data PropertyType : Type 0 where
  binary integer8 integer16 integer32 integer64 integer128 : PropertyType
  floating32 floating64 character boolean object : PropertyType
  null_term_string string invalid : PropertyType
  unnamed : ℕ → PropertyType

pub data PropertyContainerType : Type 0 where
  invalid scalar array string null_term_string vector matrix object : PropertyContainerType
  unnamed : ℕ → PropertyContainerType

pub record Property : Type 0 where
  pub value : List ℕ
  pub type : PropertyType
  pub container_type : PropertyContainerType
  pub elements_number : ℕ

-- The byte of an enumerator.
unfoldable pub type_code : PropertyType → ℕ
type_code binary = 0
type_code integer8 = 1
type_code integer16 = 2
type_code integer32 = 3
type_code integer64 = 4
type_code integer128 = 5
type_code floating32 = 6
type_code floating64 = 7
type_code character = 8
type_code boolean = 9
type_code object = 10
type_code null_term_string = 11
type_code string = 12
type_code invalid = 255
type_code (unnamed n) = n

-- The enumerators from 0 on.
abbrev types : List PropertyType
types =
    binary ∷ integer8 ∷ integer16 ∷ integer32 ∷ integer64 ∷ integer128 ∷ floating32 ∷ floating64
    ∷ character ∷ boolean ∷ object ∷ null_term_string ∷ string ∷ []

unfoldable pub type_of_code : ℕ → PropertyType
type_of_code n = if n == 255 then invalid else get_or types n (unnamed n)

unfoldable pub container_code : PropertyContainerType → ℕ
container_code invalid = 0
container_code scalar = 1
container_code array = 2
container_code string = 3
container_code null_term_string = 4
container_code vector = 5
container_code matrix = 6
container_code object = 7
container_code (unnamed n) = n

abbrev containers : List PropertyContainerType
containers = invalid ∷ scalar ∷ array ∷ string ∷ null_term_string ∷ vector ∷ matrix ∷ object ∷ []

unfoldable pub container_of_code : ℕ → PropertyContainerType
container_of_code n = get_or containers n (unnamed n)

-- The types and containers that have a name.
abbrev pub IsNamed : PropertyType → Type 0
IsNamed t = type_of_code (type_code t) ≡ t

abbrev pub IsNamedContainer : PropertyContainerType → Type 0
IsNamedContainer c = container_of_code (container_code c) ≡ c

-- `get_integer_type(size)` and `get_float_type(size)`
unfoldable pub get_integer_type : ℕ → PropertyType
get_integer_type size =
    if size == 1
    then integer8
    else if size == 2
    then integer16
    else if size == 4
    then integer32
    else if size == 8
    then integer64
    else if size == 16
    then integer128
    else invalid

unfoldable pub get_float_type : ℕ → PropertyType
get_float_type size = if size == 4 then floating32 else if size == 8 then floating64 else invalid

-- `get_property_size(prop)`, whose warnings are left out.
unfoldable pub base_size : PropertyType → ℕ
base_size binary = 1
base_size integer8 = 1
base_size integer16 = 2
base_size integer32 = 4
base_size integer64 = 8
base_size integer128 = 16
base_size floating32 = 4
base_size floating64 = 8
base_size character = 1
base_size boolean = 1
base_size object = 0
base_size null_term_string = 1
base_size string = 1
base_size invalid = 0
base_size (unnamed n) = 0

unfoldable pub get_property_size : Property → ℕ
unfolding base_size
get_property_size prop = base_size prop.type * prop.elements_number
