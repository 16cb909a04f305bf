-- ===== src/Serialization/JsonArchive/Faults.antt =====
-- Documents and archives that the code does not carry through.
use portal_framework.Base.{
  ℕ, ◌≡◌, ◌≢◌, refl, true, false, List, [], ◌∷◌, ok, err, Error, ◌==◌, ◌>>=◌, arith,
}
use portal_framework.Serialization.Property.{type_code, container_code}
use portal_framework.Serialization.Archive.{
  empty, entry, get_property_from_map, add_property_to_map, object_property,
}
use portal_framework.Serialization.Archive.Reading.{Floats}
use portal_framework.Serialization.Archive.Blobs.{add_binary_block, get_binary_block}
use portal_framework.Serialization.JsonArchive.{
  Json, object, array, no_members, member, no_elements, JsonLibrary, prepare_object, array_to_json,
}
use portal_framework.Serialization.JsonArchive.Deserialize.{deserialize_object, settle, empty_array}

-- An object whose only member is an empty array.
abbrev pub with_empty : ℕ → ℕ → Json
with_empty outer inner =
    object (member outer (object (member inner (array no_elements) no_members)) no_members)

-- An empty array in an object of a document is added to the archive itself, and the object stays
-- empty; an array that has the name of the object ends the reading with a failed assertion.
pub deserialize_object-empty_array :
    (json : JsonLibrary) (outer inner : ℕ)
    → (outer ≢ inner
        → deserialize_object json true (with_empty outer inner) empty
          ≡ ok (entry outer (object_property empty) (entry inner empty_array empty), []))
      × (deserialize_object json true (with_empty outer outer) empty ≡ err Error.assertion_failed)
unfolding deserialize_object settle add_property_to_map get_property_from_map type_code
deserialize_object-empty_array json outer inner =
    let same : (outer == outer) ≡ true = ground arith in
    (λ ne. (let other : (outer == inner) ≡ false = ground arith in rw other), rw same)

-- A block of bytes, of one byte at least, is found in the archive that it is added to, and the
-- preparation of the JSON document then reads the bytes as objects, which is undefined.
pub prepare_object-add_binary_block :
    (floats : Floats) (name b : ℕ) (bs out : List ℕ)
    → ((add_binary_block name (b ∷ bs) empty >>= get_binary_block name out) ≡ ok (true, b ∷ bs))
      × ((add_binary_block name (b ∷ bs) empty >>= prepare_object floats)
          ≡ err Error.undefined_access)
unfolding add_binary_block get_binary_block prepare_object add_property_to_map get_property_from_map
    type_code container_code array_to_json
prepare_object-add_binary_block floats name b bs out =
    let same : (name == name) ≡ true = ground arith in (rw same, refl)
