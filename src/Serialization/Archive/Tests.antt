-- ===== src/Serialization/Archive/Tests.antt =====
-- A value that is added to an archive, and found in it.
use portal_framework.Base.{◌≡◌, refl, true, false, none, some, [], ◌∷◌, drop, ok, ◌>>=◌}
use portal_framework.Serialization.Property.{PropertyType, type_code}
use portal_framework.Serialization.Binary.{get_size}
use portal_framework.Serialization.Archive.{
  ArchiveObject, empty, entry, number_property, contains, Shape, number, array, object, optional,
  no_fields, field, Value, add_property,
}
use portal_framework.Serialization.Archive.Reading.{Floats, get_property}
use portal_framework.Serialization.Archive.Stored.{IsDistinct}
use portal_framework.Serialization.Archive.Memory.{IsWhole, get_property-add_property_shape}

abbrev floats : Floats
floats = record { to_double = λ x. 0 ∷ 0 ∷ 0 ∷ 0 ∷ x; to_float = drop 4 }

-- A vector of objects, each with an optional number.
abbrev shape : Shape
shape = array (object (field 1 (optional (number PropertyType.integer16)) no_fields))

abbrev value : Value shape
value = (some (1 ∷ 2 ∷ []), tt) ∷ (none, tt) ∷ []

abbrev archive : ArchiveObject
archive = entry 8 (number_property PropertyType.integer8 (3 ∷ [])) empty

shape-IsDistinct : IsDistinct shape
unfolding IsDistinct
shape-IsDistinct = (refl, (refl, (tt, tt)))

value-IsWhole : IsWhole shape value
unfolding IsWhole get_size type_code
value-IsWhole = (((refl, refl), tt), ((refl, tt), tt))

archive-without : contains 9 archive ≡ false
unfolding contains
archive-without = refl

get_property-add_property_shape_example :
    (add_property shape 9 value archive >>= get_property floats shape 9 []) ≡ ok (true, value)
get_property-add_property_shape_example =
    get_property-add_property_shape floats shape 9 value [] archive shape-IsDistinct value-IsWhole
      archive-without
