-- ===== src/Serialization/Binary/Truncation.antt =====
-- More elements than two bytes count.
use portal_framework.Base.{ℕ, ◌/◌, ◌%◌, ◌^◌, ◌≡◌, false, List, arith}
use portal_framework.Serialization.Property.{Property, PropertyContainerType}
use portal_framework.Serialization.Binary.{
  BinarySerializationParams, add_property, metadata, should_encode_element_number,
  element_number_size,
}

low_byte : (x : ℕ) → (x % 2 ^ 16) % 256 ≡ x % 256
low_byte x = omega arith

high_byte : (x : ℕ) → ((x % 2 ^ 16) / 256) % 256 ≡ (x / 256) % 256
high_byte x = omega arith

-- Without `large_element_size` the number of elements of an array is written in two bytes: an array
-- of more elements writes the same bytes as one that tells their number modulo 2 ^ 16.
pub add_property-truncates :
    (params : BinarySerializationParams) (p : Property) (output : List ℕ)
    → params.large_element_size ≡ false
    → p.container_type ≡ PropertyContainerType.array
    → add_property params p output
      ≡ add_property params (record p { elements_number = p.elements_number % 2 ^ 16 }) output
unfolding add_property metadata should_encode_element_number element_number_size
add_property-truncates params p output small array =
    rw (array, small, low_byte p.elements_number, high_byte p.elements_number)
