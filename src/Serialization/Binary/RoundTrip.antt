-- ===== src/Serialization/Binary/RoundTrip.antt =====
-- What `add_property` has written, `get_property` reads.
use portal_framework.Base.{
  ℕ, ◌+◌, ◌-◌, ◌*◌, ◌%◌, ◌^◌, ◌≤◌, ◌<◌, ◌≡◌, refl, true, false, Bool, ◌⊎◌, inl, inr, List, [], ◌++◌,
  length, drop, replicate, ok, arith, ltb, if◌then◌else◌, false,
}
use mathlib.Core.List.{append_assoc}
use portal_framework.Serialization.Property.{
  Property, PropertyContainerType, IsNamed, IsNamedContainer,
}
use portal_framework.Serialization.Binary.{
  BinarySerializationParams, BinaryDeserializer, to_bytes, get_size, element_number_size,
  should_encode_element_number, metadata, add_property, is_scalar, read_elements_number, read_value,
  get_property,
}
use portal_framework.Serialization.Binary.Bytes.{
  take-to_bytes, drop-to_bytes, append-nil, length-to_bytes, of_bytes-to_bytes, of_bytes-zeros,
  take-append, drop-append,
}

-- A property that the format holds: its tags have names, its value has the size that they tell, and
-- it has one element, or a number of elements that is written and fits.
pub record IsStorable (params : BinarySerializationParams) (p : Property) : Type 0 where
  pub named : IsNamed p.type
  pub named_container : IsNamedContainer p.container_type
  pub sized : length p.value ≡ p.elements_number * get_size p.type
  pub small : length p.value < 2 ^ 64
  pub counted :
      ((p.container_type ≡ PropertyContainerType.scalar) × (p.elements_number ≡ 1))
      ⊎ ((should_encode_element_number params p.container_type ≡ true)
          × (p.elements_number < 256 ^ element_number_size params))

encodes-is_scalar :
    (params : BinarySerializationParams) (c : PropertyContainerType)
    → should_encode_element_number params c ≡ true
    → is_scalar c ≡ false
unfolding should_encode_element_number
encodes-is_scalar params PropertyContainerType.scalar h = cc
encodes-is_scalar params PropertyContainerType.vector h = refl
encodes-is_scalar params PropertyContainerType.matrix h = refl
encodes-is_scalar params PropertyContainerType.invalid h = refl
encodes-is_scalar params PropertyContainerType.array h = refl
encodes-is_scalar params PropertyContainerType.string h = refl
encodes-is_scalar params PropertyContainerType.null_term_string h = refl
encodes-is_scalar params PropertyContainerType.object h = refl
encodes-is_scalar params (PropertyContainerType.unnamed n) h = refl

sub_self : (n : ℕ) → n - n ≡ 0
sub_self n = omega arith

ltb-false : (m n : ℕ) → n ≤ m → ltb m n ≡ false
ltb-false m n h = ground arith

read_value_lem :
    (value rest : List ℕ) (d : BinaryDeserializer)
    → d.cursor + length value ≤ d.size
    → read_value (length value) (record d { input = value ++ rest })
      ≡ ok (value, record d { input = rest; cursor = d.cursor + length value })
unfolding read_value
read_value_lem value rest d h = rw (
  ltb-false _ _ h,
  take-append value rest,
  drop-append value rest,
  sub_self (length value),
  append-nil value,
)

-- The number of elements as it is written.
abbrev pub written_number : BinarySerializationParams → Property → List ℕ
written_number params p =
    if should_encode_element_number params p.container_type
    then to_bytes (element_number_size params) p.elements_number
    else []

drop-flag :
    (b : Bool) → drop (if b then 8 else 2) (to_bytes 8 1) ≡ replicate (8 - (if b then 8 else 2)) 0
drop-flag true = refl
drop-flag false = refl

drop-one :
    (params : BinarySerializationParams)
    → drop (element_number_size params) (to_bytes 8 1)
      ≡ replicate (8 - element_number_size params) 0
unfolding element_number_size
drop-one params = drop-flag params.large_element_size

read_elements_number-written :
    (params : BinarySerializationParams) (p : Property) (rest : List ℕ)
    → should_encode_element_number params p.container_type ≡ true
    → p.elements_number < 256 ^ element_number_size params
    → read_elements_number params p.container_type (written_number params p ++ rest)
      ≡ (p.elements_number, rest)
unfolding read_elements_number
read_elements_number-written params p rest encoded fits =
    let n = element_number_size params in
    rw (
      encodes-is_scalar params p.container_type encoded,
      encoded,
      take-to_bytes n p.elements_number rest,
      drop-to_bytes n p.elements_number rest,
      length-to_bytes n p.elements_number,
      drop-one params,
      of_bytes-zeros (to_bytes n p.elements_number) (8 - n),
      of_bytes-to_bytes n p.elements_number fits,
    )

read_elements_number-scalar :
    (params : BinarySerializationParams) (p : Property) (rest : List ℕ)
    → p.container_type ≡ PropertyContainerType.scalar
    → p.elements_number ≡ 1
    → read_elements_number params p.container_type (written_number params p ++ rest)
      ≡ (p.elements_number, rest)
unfolding read_elements_number should_encode_element_number
read_elements_number-scalar params p rest scalar one = rw (scalar, one)

-- What the reader finds of the number of elements.
read_elements_number-lem :
    (params : BinarySerializationParams) (p : Property) (rest : List ℕ)
    → IsStorable params p
    → read_elements_number params p.container_type (written_number params p ++ rest)
      ≡ (p.elements_number, rest)
read_elements_number-lem params p rest v = elim v.counted as (λ x. _) [
  | inl (scalar, one) ↦ read_elements_number-scalar params p rest scalar one
  | inr (encoded, fits) ↦ read_elements_number-written params p rest encoded fits
]

-- Reading what `add_property` has written gives the property back and leaves the stream behind it,
-- for every property that the format holds, whatever follows it, when the buffer has room for its
-- value.
pub get_property-add_property :
    (p : Property) (rest : List ℕ) (d : BinaryDeserializer)
    → IsStorable d.params p
    → d.cursor + length p.value ≤ d.size
    → get_property (record d { input = add_property d.params p [] ++ rest })
      ≡ ok (p, record d { input = rest; cursor = d.cursor + length p.value })
unfolding get_property add_property metadata
get_property-add_property p rest d v room =
    let size : (p.elements_number * get_size p.type) % 2 ^ 64 ≡ length p.value =
      omega (arith, v.sized, v.small) in
    rw (
      v.named_container,
      v.named,
      append_assoc (written_number d.params p) p.value rest,
      read_elements_number-lem d.params p (p.value ++ rest) v,
      size,
      read_value_lem p.value rest d room,
    )
