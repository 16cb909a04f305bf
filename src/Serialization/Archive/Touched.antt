-- ===== src/Serialization/Archive/Touched.antt =====
-- archive.cpp: the empty property that a lookup of a missing name leaves makes no difference to reads.
use portal_framework.Base.{ℕ, ◌≡◌, refl, arith}
use portal_framework.Serialization.Archive.{
  ArchiveObject, empty, entry, get_property_from_map, touch, Shape, number, text, vec, matrix,
  array, object, vector_of, optional, Fields, no_fields, field, Value, FieldValues,
}
use portal_framework.Serialization.Archive.Reading.{
  Floats, blank, get_object, get_property, dearchive,
}

get_property_from_map-touch :
    (k name : ℕ) (o : ArchiveObject)
    → get_property_from_map name (touch k o) ≡ get_property_from_map name o
unfolding get_property_from_map touch
get_property_from_map-touch k name empty = ground arith
get_property_from_map-touch k name (entry j p o) =
    ground (arith, get_property_from_map-touch k name o)

get_object-touch :
    (k name : ℕ) (o : ArchiveObject) → get_object name (touch k o) ≡ get_object name o
unfolding get_object
get_object-touch k name o = rw (get_property_from_map-touch k name o)

module _ (floats : Floats) (k : ℕ) where
  get_property-touch :
      (s : Shape) (name : ℕ) (out : Value s) (o : ArchiveObject)
      → get_property floats s name out (touch k o) ≡ get_property floats s name out o
  unfolding get_property
  get_property-touch (number t) name out o = rw (get_property_from_map-touch k name o)
  get_property-touch text name out o = rw (get_property_from_map-touch k name o)
  get_property-touch (vec t n) name out o = rw (get_property_from_map-touch k name o)
  get_property-touch (matrix t n) name out o = rw (get_property_from_map-touch k name o)
  get_property-touch (array s) name out o = rw (get_property_from_map-touch k name o)
  get_property-touch (object fs) name out o = rw (get_object-touch k name o)
  get_property-touch (vector_of fs) name out o = rw (get_property_from_map-touch k name o)
  get_property-touch (optional s) name out o = rw (get_property-touch s name (blank s) o)

  -- The fields of an object are read as they are without the empty property.
  dearchive-touch :
      (fs : Fields) (out : FieldValues fs) (o : ArchiveObject)
      → dearchive floats fs out (touch k o) ≡ dearchive floats fs out o
  unfolding get_property
  dearchive-touch no_fields out o = refl
  dearchive-touch (field name s fs) out o =
      rw (get_property-touch s name out.0 o, dearchive-touch fs out.1 o)
