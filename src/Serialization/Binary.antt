-- ===== src/Serialization/Binary.antt =====
-- serialization/portal/serialization/serialize/binary_serialization.h and .cpp: the binary format.
-- A byte is a number below 256, a stream the list of its bytes, and numbers stand in it with their
-- low byte first, as in the memory of the machines that the framework runs on. A read past the end
-- gives the bytes that are left. `PORTAL_ASSERT` ends the call with an error.
pub mod Bytes
pub mod RoundTrip
pub mod Slots
pub mod Headers
pub mod Streams
pub mod Truncation
mod Tests
use portal_framework.Base.{
  ℕ, zero, suc, ◌+◌, ◌-◌, ◌*◌, ◌/◌, ◌%◌, ◌^◌, Bool, true, false, not, List, [], ◌∷◌, ◌++◌, length,
  take, drop, replicate, Result, ok, err, Error, ltb, ◌==◌, ◌&&◌, if◌then◌else◌, ◌>>=◌,
}
use portal_framework.Serialization.Property.{
  PropertyType, PropertyContainerType, Property, type_code, type_of_code, container_code,
  container_of_code,
}

-- The bytes of a number, in `n` bytes, and the number of such bytes.
abbrev pub to_bytes : ℕ → ℕ → List ℕ
to_bytes zero x = []
to_bytes (suc n) x = x % 256 ∷ to_bytes n (x / 256)

abbrev pub of_bytes : List ℕ → ℕ
of_bytes [] = 0
of_bytes (b ∷ bs) = b + 256 * of_bytes bs

unfoldable pub get_size : PropertyType → ℕ
get_size PropertyType.binary = 1
get_size PropertyType.character = 1
get_size PropertyType.integer8 = 1
get_size PropertyType.integer16 = 2
get_size PropertyType.integer32 = 4
get_size PropertyType.floating32 = 4
get_size PropertyType.integer64 = 8
get_size PropertyType.floating64 = 8
get_size PropertyType.integer128 = 16
get_size PropertyType.boolean = 1
get_size PropertyType.object = 0
get_size PropertyType.null_term_string = 0
get_size PropertyType.string = 0
get_size PropertyType.invalid = 0
get_size (PropertyType.unnamed n) = 0

pub record BinarySerializationParams : Type 0 where
  pub encode_header : Bool
  pub large_element_size : Bool
  pub pack_elements : Bool

abbrev pub default_params : BinarySerializationParams
default_params = record { encode_header = true; large_element_size = false; pack_elements = false }

unfoldable pub element_number_size : BinarySerializationParams → ℕ
element_number_size params = if params.large_element_size then 8 else 2

unfoldable pub should_encode_element_number :
    BinarySerializationParams → PropertyContainerType → Bool
should_encode_element_number params PropertyContainerType.scalar = false
should_encode_element_number params PropertyContainerType.vector = not params.pack_elements
should_encode_element_number params PropertyContainerType.matrix = not params.pack_elements
should_encode_element_number params container_type = true

-- `Header`: the two magic characters, the version and the parameters.
pub record Header : Type 0 where
  pub magic : ℕ × ℕ
  pub version : ℕ
  pub params : BinarySerializationParams

abbrev pub bit : Bool → ℕ
bit true = 1
bit false = 0

unfoldable pub encode_params : BinarySerializationParams → ℕ
encode_params params = bit params.large_element_size + bit params.encode_header * 2 ^ 7

unfoldable pub decode_params : ℕ → BinarySerializationParams
decode_params header = record {
  encode_header = not (header / 2 ^ 7 == 0);
  large_element_size = header % 2 == 1;
  pack_elements = false;
}

-- The bits that `serialize` sets one after another are disjoint, so that `|=` adds them.
unfoldable pub serialize : Header → ℕ
serialize h = h.magic.0 + h.magic.1 * 2 ^ 8 + h.version * 2 ^ 16 + encode_params h.params * 2 ^ 24

unfoldable pub validate_header : Header → Result Header
validate_header h =
    if h.magic.0 == 80 && h.magic.1 == 83 && h.version == 1
    then ok h
    else err Error.assertion_failed

unfoldable pub deserialize : ℕ → Result Header
deserialize serialized = validate_header (record {
  magic = (serialized % 256, (serialized / 2 ^ 8) % 256);
  version = (serialized / 2 ^ 16) % 256;
  params = decode_params ((serialized / 2 ^ 24) % 256);
})

-- `BinarySerializer(output, params)`: what is in a new stream then.
unfoldable pub open_output : BinarySerializationParams → List ℕ
open_output params =
    if params.encode_header
    then to_bytes 4 (serialize (record { magic = (80, 83); version = 1; params = params }))
    else []

-- What `add_property` and `reserve_slot` write before the value.
unfoldable pub metadata : BinarySerializationParams → Property → List ℕ
metadata params p =
    container_code p.container_type
    ∷ type_code p.type
    ∷ (if should_encode_element_number params p.container_type
        then to_bytes (element_number_size params) p.elements_number
        else [])

-- `add_property(property)`, on a stream that stands at its end.
unfoldable pub add_property : BinarySerializationParams → Property → List ℕ → List ℕ
add_property params p output = output ++ (metadata params p ++ p.value)

-- `reserve_slot(property)`, of whose value only the size counts: the position of the slot too.
unfoldable pub reserve_slot : BinarySerializationParams → ℕ → Property → List ℕ → ℕ × List ℕ
reserve_slot params size p output =
    let start = output ++ metadata params p in (length start, start ++ replicate size 0)

-- `write_at(position, data)`: the stream is overwritten from the position, and stands at its end
-- again.
unfoldable pub write_at : ℕ → List ℕ → List ℕ → List ℕ
write_at position bytes output =
    take position output ++ (bytes ++ drop (position + length bytes) output)

-- The reader: the bytes that are left in `input`, the number of bytes that `buffer` has, and
-- `cursor`, up to which the buffer is filled. The buffer is zero beyond it.
pub record BinaryDeserializer : Type 0 where
  pub input : List ℕ
  pub size : ℕ
  pub cursor : ℕ
  pub params : BinarySerializationParams

-- `BinaryDeserializer(input, params)`
unfoldable pub open_with : BinarySerializationParams → List ℕ → BinaryDeserializer
open_with params input = record { input = input; size = length input; cursor = 0; params = params }

-- `BinaryDeserializer(input, read_header)`: of a stream shorter than a header the header is not
-- defined.
unfoldable pub open_input : Bool → List ℕ → Result BinaryDeserializer
unfolding open_with
open_input false input = ok (open_with default_params input)
open_input true input = if ltb (length input) 4 then err Error.undefined_access else do
  header ← deserialize (of_bytes (take 4 input))
  ok (record (open_with header.params input) { input = drop 4 input })

abbrev pub is_scalar : PropertyContainerType → Bool
is_scalar PropertyContainerType.scalar = true
is_scalar container_type = false

-- The number of elements, a `size_t` that is 1 and of which the first bytes are read.
unfoldable pub read_elements_number :
    BinarySerializationParams → PropertyContainerType → List ℕ → ℕ × List ℕ
read_elements_number params container_type input =
    let n = element_number_size params in
    let bytes = take n input in
    if is_scalar container_type
    then (1, input)
    else if not (should_encode_element_number params container_type)
    then (0, input)
    else (of_bytes (bytes ++ drop (length bytes) (to_bytes 8 1)), drop n input)

-- The value: what is read into the buffer, which is zero behind it. A view past the end of the
-- buffer is not defined.
unfoldable pub read_value : ℕ → BinaryDeserializer → Result (List ℕ × BinaryDeserializer)
read_value n d =
    let bytes = take n d.input in
    if ltb d.size (d.cursor + n)
    then err Error.undefined_access
    else ok (
      bytes ++ replicate (n - length bytes) 0,
      record d { input = drop n d.input; cursor = d.cursor + n },
    )

-- `get_property()`; a tag that cannot be read is not defined.
unfoldable pub get_property : BinaryDeserializer → Result (Property × BinaryDeserializer)
get_property d = elim d.input [
  | [] ↦ err Error.undefined_access
  | c ∷ [] ↦ err Error.undefined_access
  | c ∷ t ∷ rest ↦
      let container_type = container_of_code c in
      let type = type_of_code t in
      let (elements_number, input) = read_elements_number d.params container_type rest in
      do
        (value, d') ←
            read_value ((elements_number * get_size type) % 2 ^ 64) (record d { input = input })
        ok (
          record {
            value = value;
            type = type;
            container_type = container_type;
            elements_number = elements_number;
          },
          d',
        )
]
