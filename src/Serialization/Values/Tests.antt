-- ===== src/Serialization/Values/Tests.antt =====
-- An aggregate of a number, a string, a vector of strings and an optional vector of numbers.
use portal_framework.Base.{◌≡◌, some, [], ◌∷◌, ◌++◌, err, Error, arith}
use portal_framework.Serialization.Property.{PropertyType}
use portal_framework.Serialization.Binary.{BinaryDeserializer, default_params, element_number_size}
use portal_framework.Serialization.Values.{
  Shape, scalar, array, text, sequence, optional, fields, Value, get_blob, add_blob,
}
use portal_framework.Serialization.Values.Blobs.{get_blob-add_blob}

abbrev person : Shape
person =
    fields (scalar PropertyType.integer16)
      (fields text (fields (sequence text) (optional (array PropertyType.integer8))))

abbrev somebody : Value person
unfolding Value
somebody = (7 ∷ 1 ∷ [], (65 ∷ 66 ∷ [], ((67 ∷ []) ∷ [] ∷ [], some ((1 ∷ []) ∷ (2 ∷ []) ∷ []))))

abbrev reader : BinaryDeserializer
reader = record { input = []; size = 1000; cursor = 0; params = default_params }

get_blob-add_blob_example :
    get_blob 3 (record reader { input = add_blob default_params (1 ∷ 2 ∷ 3 ∷ []) [] ++ [] })
    ≡ err Error.assertion_failed
unfolding element_number_size
get_blob-add_blob_example =
    get_blob-add_blob (1 ∷ 2 ∷ 3 ∷ []) [] reader (omega arith) (omega arith) (omega arith)
