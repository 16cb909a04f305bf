-- ===== src/Serialization/Values/Blobs.antt =====
-- Raw bytes: the writer and the reader that take a length.
use portal_framework.Base.{
  ℕ, ◌+◌, ◌^◌, ◌≤◌, ◌<◌, ◌≡◌, refl, inr, List, [], ◌++◌, length, arith, err, Error,
}
use portal_framework.Serialization.Property.{
  Property, PropertyType, PropertyContainerType, type_code, type_of_code, container_code,
  container_of_code,
}
use portal_framework.Serialization.Binary.{
  BinarySerializationParams, BinaryDeserializer, get_size, should_encode_element_number,
  element_number_size,
}
use portal_framework.Serialization.Binary.RoundTrip.{IsStorable, get_property-add_property}
use portal_framework.Serialization.Values.{add_blob, get_blob}

abbrev blob : List ℕ → Property
blob bytes = record {
  value = bytes;
  type = PropertyType.binary;
  container_type = PropertyContainerType.string;
  elements_number = length bytes;
}

blob-IsStorable :
    (params : BinarySerializationParams) (bytes : List ℕ)
    → length bytes < 256 ^ element_number_size params
    → length bytes < 2 ^ 64
    → IsStorable params (blob bytes)
unfolding type_code type_of_code container_code container_of_code get_size
    should_encode_element_number
blob-IsStorable params bytes fits small = record {
  named = refl;
  named_container = refl;
  sized = omega arith;
  small = small;
  counted = inr (refl, fits);
}

-- Raw bytes that `add_value(void*, length)` has written are not read by `get_value(char*&, length)`:
-- they are tagged as binary, and the reader asserts that they are characters. The bytes are few
-- enough for the format, and the reader has room for them.
pub get_blob-add_blob :
    (bytes rest : List ℕ) (d : BinaryDeserializer)
    → length bytes < 256 ^ element_number_size d.params
    → length bytes < 2 ^ 64
    → d.cursor + length bytes ≤ d.size
    → get_blob (length bytes) (record d { input = add_blob d.params bytes [] ++ rest })
      ≡ err Error.assertion_failed
unfolding get_blob add_blob type_code
get_blob-add_blob bytes rest d fits small room =
    rw (
      get_property-add_property (blob bytes) rest d (blob-IsStorable d.params bytes fits small)
        room)
