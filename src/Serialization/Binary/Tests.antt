-- ===== src/Serialization/Binary/Tests.antt =====
-- Streams of two properties, and the theorems at concrete inputs.
use portal_framework.Base.{◌≡◌, refl, [], ◌∷◌, ok, arith, inl, inr}
use portal_framework.Serialization.Property.{
  Property, PropertyType, PropertyContainerType, type_code, type_of_code, container_code,
  container_of_code,
}
use portal_framework.Serialization.Binary.{
  BinaryDeserializer, default_params, add_property, get_size, should_encode_element_number,
  element_number_size, metadata, open_output, serialize, encode_params,
}
use portal_framework.Serialization.Binary.RoundTrip.{IsStorable}
use portal_framework.Serialization.Binary.Streams.{read_back, read_back-all}
use portal_framework.Serialization.Binary.Truncation.{add_property-truncates}

-- A 16-bit integer, and an array of three bytes.
abbrev number : Property
number = record {
  value = 7 ∷ 1 ∷ [];
  type = PropertyType.integer16;
  container_type = PropertyContainerType.scalar;
  elements_number = 1;
}

abbrev bytes : Property
bytes = record {
  value = 10 ∷ 20 ∷ 30 ∷ [];
  type = PropertyType.integer8;
  container_type = PropertyContainerType.array;
  elements_number = 3;
}

number-IsStorable : IsStorable default_params number
unfolding type_code type_of_code container_code container_of_code get_size
number-IsStorable = record {
  named = refl;
  named_container = refl;
  sized = refl;
  small = omega arith;
  counted = inl (refl, refl);
}

bytes-IsStorable : IsStorable default_params bytes
unfolding type_code type_of_code container_code container_of_code get_size
    should_encode_element_number element_number_size
bytes-IsStorable = record {
  named = refl;
  named_container = refl;
  sized = refl;
  small = omega arith;
  counted = inr (refl, omega arith);
}

add_property-bytes : add_property default_params bytes [] ≡ 2 ∷ 1 ∷ 3 ∷ 0 ∷ 10 ∷ 20 ∷ 30 ∷ []
unfolding add_property metadata should_encode_element_number element_number_size type_code
    container_code
add_property-bytes = refl

header-bytes : open_output default_params ≡ 80 ∷ 83 ∷ 1 ∷ 128 ∷ []
unfolding open_output serialize encode_params
header-bytes = refl

abbrev reader : BinaryDeserializer
reader = record { input = []; size = 20; cursor = 4; params = default_params }

read_back-all_example :
    (d : BinaryDeserializer) × (read_back default_params (number ∷ bytes ∷ [])
      ≡ ok (number ∷ bytes ∷ [], d))
    × (d.input ≡ [])
read_back-all_example =
    read_back-all default_params (number ∷ bytes ∷ []) refl refl
      (number-IsStorable, (bytes-IsStorable, tt))

abbrev long_array : Property
long_array = record bytes { elements_number = 65539 }

add_property-truncates_example :
    add_property default_params long_array [] ≡ add_property default_params bytes []
add_property-truncates_example = add_property-truncates default_params long_array [] refl refl
