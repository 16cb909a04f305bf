-- ===== src/Serialization/Binary/Headers.antt =====
-- The header: what a writer puts at the start of a stream, a reader takes back.
use portal_framework.Base.{
  suc, ltb, length, arith, subst, sym, ℕ, ◌≡◌, refl, Bool, true, false, List, ◌++◌, ok,
}
use portal_framework.Serialization.Binary.{
  BinarySerializationParams, Header, encode_params, decode_params, serialize, validate_header,
  deserialize, open_output, open_input, open_with,
}

abbrev of_flags : Bool → Bool → Bool → BinarySerializationParams
of_flags header large pack = record {
  encode_header = header;
  large_element_size = large;
  pack_elements = pack;
}

abbrev pub header_of : BinarySerializationParams → Header
header_of params = record { magic = (80, 83); version = 1; params = params }

deserialize-flags :
    (header large pack : Bool)
    → deserialize (serialize (header_of (of_flags header large pack)))
      ≡ ok (header_of (of_flags header large false))
unfolding deserialize serialize validate_header encode_params decode_params
deserialize-flags true true pack = refl
deserialize-flags true false pack = refl
deserialize-flags false true pack = refl
deserialize-flags false false pack = refl

-- A header that is read back tells the parameters it was written with, except that
-- `pack_elements` is always read as false.
pub deserialize-serialize :
    (params : BinarySerializationParams)
    → deserialize (serialize (header_of params))
      ≡ ok (header_of (record params { pack_elements = false }))
deserialize-serialize params =
    deserialize-flags params.encode_header params.large_element_size params.pack_elements

long_enough : (n : ℕ) → ltb (suc (suc (suc (suc n)))) 4 ≡ false
long_enough n = ground arith

open-flags :
    (large pack : Bool) (body : List ℕ)
    → let params = of_flags true large pack in
      let stream = open_output params ++ body in
      open_input true stream
      ≡ ok (record (open_with (of_flags true large false) stream) { input = body })
unfolding open_input open_output deserialize serialize validate_header encode_params decode_params
open-flags true pack body = rw (long_enough (length body))
open-flags false pack body = rw (long_enough (length body))

-- A reader that opens a stream with a header stands behind the header, with the parameters that the
-- header tells.
pub open_input-open_output :
    (params : BinarySerializationParams) (body : List ℕ)
    → params.encode_header ≡ true
    → let stream = open_output params ++ body in
      open_input true stream
      ≡ ok (record (open_with (record params { pack_elements = false }) stream) { input = body })
open_input-open_output params body h =
    subst
      (λ e.
        let params' = of_flags e params.large_element_size params.pack_elements in
        let stream = open_output params' ++ body in
        open_input true stream
        ≡ ok
            (record (open_with (record params' { pack_elements = false }) stream) { input = body }))
      (sym h) (open-flags params.large_element_size params.pack_elements body)
