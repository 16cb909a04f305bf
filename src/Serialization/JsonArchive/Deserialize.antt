-- ===== src/Serialization/JsonArchive/Deserialize.antt =====
-- serialization/portal/serialization/archive/json_archive.cpp: `deserialize`, and the `dump` and
-- `read` of a whole archive. An empty array is added to the archive that is read, `this`, in whatever
-- object it stands: an object below `this` gives, besides its own content, the names of these.
use portal_framework.Base.{ℕ, suc, Bool, true, false, List, [], ◌∷◌, ◌++◌, Result, ok, ◌>>=◌}
use portal_framework.Serialization.Property.{PropertyType, PropertyContainerType}
use portal_framework.Serialization.Binary.{to_bytes}
use portal_framework.Serialization.Values.{bool_bytes}
use portal_framework.Serialization.Archive.{
  ArchiveObject, empty, ArchiveProperty, property, bytes, ArchiveObjects, nil, more,
  add_property_to_map, Shape, number, text, add_property, array_property, object_property,
}
use portal_framework.Serialization.Archive.Reading.{Floats}
use portal_framework.Serialization.Archive.Blobs.{add_binary_block}
use portal_framework.Serialization.JsonArchive.{
  Json, null, object, array, string, binary, boolean, number_integer, number_unsigned, number_float,
  Members, no_members, member, Elements, no_elements, element, JsonLibrary, prepare_object,
}

-- An object, and the names of the empty arrays below it.
abbrev pub Built : Type 0
Built = Result (ArchiveObject × List ℕ)

abbrev pub empty_array : ArchiveProperty
empty_array = property (bytes []) PropertyType.invalid PropertyContainerType.array 0

-- `this` itself takes the empty arrays.
abbrev pub add_empty_arrays : List ℕ → ArchiveObject → Result ArchiveObject
add_empty_arrays [] o = ok o
add_empty_arrays (name ∷ names) o =
    add_property_to_map name empty_array o >>= add_empty_arrays names

unfoldable pub settle : Bool → List ℕ → ArchiveObject → Built
settle false names o = ok (o, names)
settle true names o = add_empty_arrays names o >>= λ o'. ok (o', [])

-- The loops that fill a vector: the first exception of the library ends them.
abbrev pub get_all {ℓ} : {A : Type ℓ} → (Json → Result A) → Elements → Result (List A)
get_all get no_elements = ok []
get_all get (element j js) = do x ← get j; xs ← get_all get js; ok (x ∷ xs)

abbrev pub size : Elements → ℕ
size no_elements = 0
size (element j js) = suc (size js)

abbrev pub alone : Result ArchiveObject → Built
alone r = r >>= λ o. ok (o, [])

-- `add_property` of a vector of numbers of 64 bits, and of strings.
abbrev pub add_numbers : PropertyType → ℕ → ArchiveObject → List (List ℕ) → Built
add_numbers t name root xs = alone (add_property (Shape.array (number t)) name xs root)

abbrev pub add_texts : ℕ → ArchiveObject → List (List ℕ) → Built
add_texts name root xs = alone (add_property (Shape.array text) name xs root)

abbrev pub as_bits : Result ℕ → Result (List ℕ)
as_bits r = r >>= λ n. ok (to_bytes 8 n)

-- The values that are neither objects nor arrays.
unfoldable pub deserialize_scalar : ℕ → Json → ArchiveObject → Built
deserialize_scalar name (string s) root = alone (add_property text name s root)
deserialize_scalar name (binary b) root = alone (add_binary_block name b root)
deserialize_scalar name (boolean b) root =
    alone (add_property (number PropertyType.boolean) name (bool_bytes b) root)
deserialize_scalar name (number_integer n) root =
    alone (add_property (number PropertyType.integer64) name (to_bytes 8 n) root)
deserialize_scalar name (number_unsigned n) root =
    alone (add_property (number PropertyType.integer64) name (to_bytes 8 n) root)
deserialize_scalar name (number_float x) root =
    alone (add_property (number PropertyType.floating64) name x root)
deserialize_scalar name value root = ok (root, [])

module _ (json : JsonLibrary) where
  -- `deserialize_array` of an array whose first element is not an object.
  unfoldable pub deserialize_values : ℕ → Json → Elements → ArchiveObject → Built
  deserialize_values name (string _) js root = get_all json.get_string js >>= add_texts name root
  deserialize_values name (boolean _) js root =
      get_all (λ j. as_bits (json.get_integer j)) js
      >>= add_numbers PropertyType.integer64 name root
  deserialize_values name (number_integer _) js root =
      get_all (λ j. as_bits (json.get_integer j)) js
      >>= add_numbers PropertyType.integer64 name root
  deserialize_values name (number_unsigned _) js root =
      get_all (λ j. as_bits (json.get_unsigned j)) js
      >>= add_numbers PropertyType.integer64 name root
  deserialize_values name (number_float _) js root =
      get_all json.get_float js >>= add_numbers PropertyType.floating64 name root
  deserialize_values name first js root = ok (root, [])

  -- The flag tells whether `root` is `this`.
  unfoldable mutual
    -- `deserialize_object(root, input)`
    pub deserialize_object : Bool → Json → ArchiveObject → Built
    deserialize_object top null root = ok (root, [])
    deserialize_object top (object ms) root = deserialize_members top ms root
    deserialize_object top (array js) root = deserialize_indexed top 0 js root
    deserialize_object top value root = deserialize_scalar json.whole_name value root

    pub deserialize_members : Bool → Members → ArchiveObject → Built
    deserialize_members top no_members root = ok (root, [])
    deserialize_members top (member name j ms) root = do
      first ← deserialize_value top name j root
      rest ← deserialize_members top ms first.0
      ok (rest.0, first.1 ++ rest.1)

    pub deserialize_indexed : Bool → ℕ → Elements → ArchiveObject → Built
    deserialize_indexed top i no_elements root = ok (root, [])
    deserialize_indexed top i (element j js) root = do
      first ← deserialize_value top (json.index_name i) j root
      rest ← deserialize_indexed top (suc i) js first.0
      ok (rest.0, first.1 ++ rest.1)

    -- One turn of the loop: the switch on the kind of a value.
    pub deserialize_value : Bool → ℕ → Json → ArchiveObject → Built
    deserialize_value top name (object ms) root = do
      child ← deserialize_members false ms empty
      root' ← add_property_to_map name (object_property child.0) root
      settle top child.1 root'
    deserialize_value top name (array js) root = deserialize_array top name js root
    deserialize_value top name value root = deserialize_scalar name value root

    pub deserialize_array : Bool → ℕ → Elements → ArchiveObject → Built
    deserialize_array top name no_elements root = settle top (name ∷ []) root
    deserialize_array top name (element (object ms) js) root = do
      first ← deserialize_members false ms empty
      rest ← deserialize_objects js
      root' ← settle top (first.1 ++ rest.1) root
      o ←
          add_property_to_map name
            (array_property PropertyType.object (suc (size js)) (more first.0 rest.0)) root'.0
      ok (o, root'.1)
    deserialize_array top name (element j js) root = deserialize_values name j (element j js) root

    pub deserialize_objects : Elements → Result (ArchiveObjects × List ℕ)
    deserialize_objects no_elements = ok (nil, [])
    deserialize_objects (element j js) = do
      first ← deserialize_object false j empty
      rest ← deserialize_objects js
      ok (more first.0 rest.0, first.1 ++ rest.1)

  -- `read` of a stream, into the archive as it is.
  unfoldable pub read : List ℕ → ArchiveObject → Result ArchiveObject
  read input o = deserialize_object true (json.parse input) o >>= λ r. ok r.0

  unfoldable pub dump : Floats → ℕ → ArchiveObject → Result (List ℕ)
  dump floats indent o = prepare_object floats o >>= λ ms. ok (json.print indent (object ms))
