-- ===== src/Serialization/Binary/Streams.antt =====
-- Whole streams: properties one after another, and the reader that takes them back.
use portal_framework.Base.{
  ℕ, zero, suc, ◌+◌, ◌≤◌, ◌≡◌, refl, sym, ap, subst, ◌∙◌, true, false, List, [], ◌∷◌, ◌++◌, length,
  length-append, Result, ok, ◌>>=◌, arith,
}
use mathlib.Core.List.{append_assoc}
use portal_framework.Serialization.Property.{Property}
use portal_framework.Serialization.Binary.{
  BinarySerializationParams, BinaryDeserializer, metadata, add_property, get_property, open_output,
  open_input, open_with,
}
use portal_framework.Serialization.Binary.Bytes.{append-nil}
use portal_framework.Serialization.Binary.RoundTrip.{IsStorable, get_property-add_property}
use portal_framework.Serialization.Binary.Headers.{open_input-open_output}

-- `add_property` for each property in turn.
abbrev pub add_properties : BinarySerializationParams → List Property → List ℕ → List ℕ
add_properties params [] output = output
add_properties params (p ∷ ps) output = add_properties params ps (add_property params p output)

-- `n` calls of `get_property`.
abbrev pub get_properties : ℕ → BinaryDeserializer → Result (List Property × BinaryDeserializer)
get_properties zero d = ok ([], d)
get_properties (suc n) d = do
  (p, d1) ← get_property d
  (ps, d2) ← get_properties n d1
  ok (p ∷ ps, d2)

-- Each property can be stored.
abbrev pub AllStorable : BinarySerializationParams → List Property → Type 0
AllStorable params [] = Unit
AllStorable params (p ∷ ps) = IsStorable params p × AllStorable params ps

add_properties-append :
    (params : BinarySerializationParams) (ps : List Property) (output more : List ℕ)
    → add_properties params ps (output ++ more) ≡ output ++ add_properties params ps more
unfolding add_property
add_properties-append params [] output more = refl
add_properties-append params (p ∷ ps) output more =
    ap (add_properties params ps) (append_assoc output more (metadata params p ++ p.value))
    ∙ add_properties-append params ps output (add_property params p more)

add_properties-cons :
    (params : BinarySerializationParams) (p : Property) (ps : List Property)
    → add_properties params (p ∷ ps) [] ≡ add_property params p [] ++ add_properties params ps []
add_properties-cons params p ps =
    ap (add_properties params ps) (sym (append-nil (add_property params p [])))
    ∙ add_properties-append params ps (add_property params p []) []

length-add_property :
    (params : BinarySerializationParams) (p : Property)
    → length p.value ≤ length (add_property params p [])
unfolding add_property
length-add_property params p = omega (arith, length-append (metadata params p) p.value)

get_properties-lem :
    (ps : List Property) (d : BinaryDeserializer)
    → AllStorable d.params ps
    → d.cursor + length (add_properties d.params ps []) ≤ d.size
    → (c : ℕ) × (get_properties (length ps) (record d { input = add_properties d.params ps [] })
        ≡ ok (ps, record d { input = []; cursor = c }))
get_properties-lem [] d all room = (d.cursor, refl)
get_properties-lem (p ∷ ps) d (v, all) room =
    let rest = add_properties d.params ps [] in
    let both : add_properties d.params (p ∷ ps) [] ≡ add_property d.params p [] ++ rest =
      add_properties-cons d.params p ps in
    let sizes : length (add_property d.params p [] ++ rest)
        ≡ length (add_property d.params p []) + length rest =
      length-append (add_property d.params p []) rest in
    let long = length-add_property d.params p in
    let lengths = ap length both in
    let (c, e) =
      get_properties-lem ps (record d { cursor = d.cursor + length p.value }) all
        (omega (arith, sizes, long, lengths)) in
    (c, rw (both, get_property-add_property p rest d v (omega (arith, sizes, long, lengths)), e))

-- What a reader finds in the stream that a writer with these parameters has written.
abbrev pub read_back :
    BinarySerializationParams → List Property → Result (List Property × BinaryDeserializer)
read_back params ps = do
  reader ← open_input true (add_properties params ps (open_output params))
  get_properties (length ps) reader

read_back-unpacked :
    (params : BinarySerializationParams) (ps : List Property)
    → params.encode_header ≡ true
    → let unpacked = record params { pack_elements = false } in
      AllStorable unpacked ps
      → (d : BinaryDeserializer) × (read_back unpacked ps ≡ ok (ps, d)) × (d.input ≡ [])
unfolding open_with
read_back-unpacked params ps header all =
    let unpacked = record params { pack_elements = false } in
    let body = add_properties unpacked ps [] in
    let stream = open_output unpacked ++ body in
    let same : add_properties unpacked ps (open_output unpacked) ≡ stream =
      ap (add_properties unpacked ps) (sym (append-nil (open_output unpacked)))
      ∙ add_properties-append unpacked ps (open_output unpacked) [] in
    let (c, e) =
      get_properties-lem ps (open_with unpacked stream) all
        (omega (arith, length-append (open_output unpacked) body)) in
    (
      record (open_with unpacked stream) { input = []; cursor = c },
      rw (same, open_input-open_output unpacked body header, e),
      refl,
    )

-- A stream that is written with a header and the default packing is read back whole: a reader that
-- takes its parameters from the header finds every property, in order, and ends at the end of the
-- stream. The properties are ones that the format holds.
pub read_back-all :
    (params : BinarySerializationParams) (ps : List Property)
    → params.encode_header ≡ true
    → params.pack_elements ≡ false
    → AllStorable params ps
    → (d : BinaryDeserializer) × (read_back params ps ≡ ok (ps, d)) × (d.input ≡ [])
read_back-all params ps header unpacked all =
    subst
      (λ b.
        AllStorable (record params { pack_elements = b }) ps
        → (d : BinaryDeserializer) × (read_back (record params { pack_elements = b }) ps
            ≡ ok (ps, d))
          × (d.input ≡ []))
      (sym unpacked) (read_back-unpacked params ps header) all
