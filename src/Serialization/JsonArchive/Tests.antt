-- ===== src/Serialization/JsonArchive/Tests.antt =====
-- Records, documents, and the theorems applied to them.
use portal_framework.Base.{
  ℕ, ◌≡◌, refl, true, none, some, List, [], ◌∷◌, drop, Result, ok, err, Error, arith, ◌>>=◌,
}
use portal_framework.Serialization.Property.{PropertyType}
use portal_framework.Serialization.Archive.{
  empty, entry, object_property, number, text, vec, array, vector_of, optional, Fields, no_fields,
  field, FieldValues,
}
use portal_framework.Serialization.Archive.Reading.{Floats}
use portal_framework.Serialization.Archive.Blobs.{add_binary_block}
use portal_framework.Serialization.JsonArchive.{
  prepare_object, Json, number_unsigned, number_float, string, JsonLibrary,
}
use portal_framework.Serialization.JsonArchive.Deserialize.{deserialize_object, empty_array}
use portal_framework.Serialization.JsonArchive.Written.{json_of, json_members}
use portal_framework.Serialization.JsonArchive.Faults.{
  with_empty, deserialize_object-empty_array, prepare_object-add_binary_block,
}

abbrev floats : Floats
floats = record { to_double = λ x. 0 ∷ 0 ∷ 0 ∷ 0 ∷ x; to_float = drop 4 }

-- An element has a weight and flags.
abbrev element_fields : Fields
element_fields =
    field 4 (number PropertyType.floating32)
      (field 5 (array (number PropertyType.boolean)) no_fields)

abbrev fields : Fields
fields = field 1 (number PropertyType.integer32) (
    field 2 text (
      field 3 (vector_of element_fields)
        (field 6 (vec PropertyType.integer8 2) (field 7 (optional text) no_fields))))

abbrev sample : FieldValues fields
sample = (
  255 ∷ 255 ∷ 255 ∷ 255 ∷ [],
  (
    104 ∷ 105 ∷ [],
    (
      (0 ∷ 0 ∷ 128 ∷ 63 ∷ [], ((1 ∷ []) ∷ (0 ∷ []) ∷ [], tt)) ∷ [],
      ((7 ∷ []) ∷ (9 ∷ []) ∷ [], (none, tt)),
    ),
  ),
)

-- A library that knows one document.
abbrev library : Json → JsonLibrary
library document = record {
  parse = λ text. document;
  print = λ indent j. [];
  get_integer = λ j. err Error.runtime_error;
  get_unsigned = unsigned;
  get_float = float;
  get_string = characters;
  index_name = λ i. i;
  whole_name = 0;
}
  where
    unsigned : Json → Result ℕ
    unsigned (number_unsigned n) = ok n
    unsigned j = err Error.runtime_error

    float : Json → Result (List ℕ)
    float (number_float x) = ok x
    float j = err Error.runtime_error

    characters : Json → Result (List ℕ)
    characters (string s) = ok s
    characters j = err Error.runtime_error

abbrev document : Json
document = Json.object (json_members floats fields sample)

-- The number -1 of 32 bits is 4294967295 in the document.
minus_one-json_of :
    json_of floats (number PropertyType.integer32) (255 ∷ 255 ∷ 255 ∷ 255 ∷ [])
    ≡ some (number_unsigned 4294967295)
unfolding json_of
minus_one-json_of = refl

deserialize_object-empty_array_example :
    deserialize_object (library document) true (with_empty 1 2) empty
    ≡ ok (entry 1 (object_property empty) (entry 2 empty_array empty), [])
deserialize_object-empty_array_example =
    (deserialize_object-empty_array (library document) 1 2).0 (λ e. omega arith)

prepare_object-add_binary_block_example :
    (add_binary_block 1 (7 ∷ 8 ∷ []) empty >>= prepare_object floats) ≡ err Error.undefined_access
prepare_object-add_binary_block_example = (prepare_object-add_binary_block floats 1 7 (8 ∷ []) []).1
