-- ===== src/Serialization/JsonArchive/Prepared.antt =====
-- The JSON document that `prepare_json` makes of what `archive` has added.
use portal_framework.Base.{
  ℕ, ◌≡◌, refl, Bool, true, false, Option, none, some, List, [], ◌∷◌, ◌++◌, length, Result, ok,
  arith, ◌==◌,
}
use portal_framework.Base.Ordered.{Each, Each-map}
use portal_framework.Serialization.Property.{PropertyType, type_code}
use portal_framework.Serialization.Binary.{get_size}
use portal_framework.Serialization.Values.{concat}
use portal_framework.Serialization.Archive.{
  ArchiveObject, empty, entry, ArchiveProperty, bytes, Shape, number, text, vec, matrix, array,
  object, vector_of, optional, Fields, no_fields, field, Value, FieldValues, get_property_type,
  get_property_from_map, number_property, text_property, array_property, element_name,
}
use portal_framework.Serialization.Archive.Reading.{Floats}
use portal_framework.Serialization.Archive.Bytes.{read_bytes-text, read_bytes-concat, chunks-all}
use portal_framework.Serialization.Archive.Stored.{
  entry_of, each_object, stored, archived, is_field, AreDistinct, IsDistinct,
}
use portal_framework.Serialization.JsonArchive.{
  Json, Members, string, has_member, set_member, each_element, number_to_json, elements_to_json,
  number_element, text_element, array_to_json, serialize_vec, until_zero, prepare_object,
  prepare_property, prepare_elements,
}
use portal_framework.Serialization.JsonArchive.Written.{
  member_of, as_json, json_of, json_members, IsNumber, one_byte, two_bytes, four_bytes, eight_bytes,
  single, double, bool, IsPacked, IsArithmetic, integer8, integer16, integer32, integer64,
  floating32, floating64, boolean, numbers, texts, IsStorable, AreStorable,
}
use portal_framework.Serialization.JsonArchive.Numbers.{scalar_to_json-as_json, element-IsNumber}

-- The characters of a string, and its zero.
until_zero-append :
    (v : List ℕ) → Each (λ c. (c == 0) ≡ false) v → until_zero (v ++ (0 ∷ [])) ≡ ok v
until_zero-append [] h = refl
until_zero-append (c ∷ cs) (e, h) = rw (e, until_zero-append cs h)

module _ (floats : Floats) where
  pub length-IsNumber :
      (t : PropertyType) (v : List ℕ) → IsNumber floats t v → length v ≡ get_size t
  unfolding get_size
  length-IsNumber _ v (one_byte h) = h.0
  length-IsNumber _ v (two_bytes h) = h.0
  length-IsNumber _ v (four_bytes h) = h.0
  length-IsNumber _ v (eight_bytes h) = h.0
  length-IsNumber _ v (single h _ _) = h
  length-IsNumber _ v (double h) = h
  length-IsNumber _ _ (bool true) = refl
  length-IsNumber _ _ (bool false) = refl

  elements_to_json-each_element {ℓ} :
      {A : Type ℓ} (extract : ArchiveProperty → Result Json) (put : A → ArchiveObject)
      (f : A → Json) (xs : List A)
      → Each (λ x. extract (get_property_from_map element_name (put x)) ≡ ok (f x)) xs
      → elements_to_json extract (length xs) (each_object put xs) ≡ ok (each_element f xs)
  elements_to_json-each_element extract put f [] h = refl
  elements_to_json-each_element extract put f (x ∷ xs) (e, h) =
      rw (e, elements_to_json-each_element extract put f xs h)

  module _ (n : ℕ) (v : List (List ℕ)) where
    sizes : (t : PropertyType) → Each (IsNumber floats t) v → Each (λ x. length x ≡ get_size t) v
    sizes t h = Each-map v (length-IsNumber t) h

    vec-as_json :
        (t : PropertyType)
        → IsPacked floats t n v
        → serialize_vec floats t n (bytes (concat v))
          ≡ ok (Json.array (each_element (λ x. as_json floats t x) v))
    unfolding serialize_vec get_size
    vec-as_json _ (integer8, (_, (e, (_, h)))) =
        rw (read_bytes-concat n 1 v e (sizes _ h), chunks-all n 1 v e (sizes _ h))
    vec-as_json _ (integer16, (_, (e, (_, h)))) =
        rw (read_bytes-concat n 2 v e (sizes _ h), chunks-all n 2 v e (sizes _ h))
    vec-as_json _ (integer32, (_, (e, (_, h)))) =
        rw (read_bytes-concat n 4 v e (sizes _ h), chunks-all n 4 v e (sizes _ h))
    vec-as_json _ (integer64, (_, (e, (_, h)))) =
        rw (read_bytes-concat n 8 v e (sizes _ h), chunks-all n 8 v e (sizes _ h))
    vec-as_json _ (floating32, (_, (e, (_, h)))) =
        rw (read_bytes-concat n 4 v e (sizes _ h), chunks-all n 4 v e (sizes _ h))
    vec-as_json _ (floating64, (_, (e, (_, h)))) =
        rw (read_bytes-concat n 8 v e (sizes _ h), chunks-all n 8 v e (sizes _ h))
    vec-as_json _ (boolean, (other, _)) = absurd (other refl)

  elements-as_json :
      (t u : PropertyType) (v : List (List ℕ))
      → Each (IsNumber floats t) v
      → elements_to_json
          (number_element floats t)
          (length v)
          (each_object (λ x. entry element_name (number_property u x) empty) v)
        ≡ ok (each_element (λ x. as_json floats t x) v)
  unfolding get_property_from_map
  elements-as_json t u v h =
      elements_to_json-each_element (number_element floats t)
        (λ x. entry element_name (number_property u x) empty) (as_json floats t) v
        (Each-map v (λ x g. rw (scalar_to_json-as_json floats t x g)) h)

  texts-as_json :
      (v : List (List ℕ))
      → elements_to_json
          (text_element 1)
          (length v)
          (each_object (λ x. entry element_name (text_property x) empty) v)
        ≡ ok (each_element string v)
  unfolding get_property_from_map
  texts-as_json [] = refl
  texts-as_json (x ∷ xs) = rw (read_bytes-text x, texts-as_json xs)

  array-as_json :
      {t : PropertyType} (v : List (List ℕ))
      → IsArithmetic t
      → Each (IsNumber floats t) v
      → prepare_property floats (
          array_property
            (get_property_type (number t))
            (length v)
            (each_object (λ x. entry element_name (number_property t x) empty) v))
        ≡ ok (
            some
              (Json.array (each_element (λ x. as_json floats (get_property_type (number t)) x) v)))
  unfolding prepare_object array_to_json number_to_json get_property_type
  array-as_json v integer8 h = rw (elements-as_json PropertyType.integer8 PropertyType.integer8 v h)
  array-as_json v integer16 h =
      rw (elements-as_json PropertyType.integer16 PropertyType.integer16 v h)
  array-as_json v integer32 h =
      rw (elements-as_json PropertyType.integer32 PropertyType.integer32 v h)
  array-as_json v integer64 h =
      rw (elements-as_json PropertyType.integer64 PropertyType.integer64 v h)
  array-as_json v floating32 h =
      rw (elements-as_json PropertyType.floating32 PropertyType.floating32 v h)
  array-as_json v floating64 h =
      rw (elements-as_json PropertyType.floating64 PropertyType.floating64 v h)
  array-as_json v boolean h = rw (
      elements-as_json PropertyType.integer8 PropertyType.boolean v
        (Each-map v (element-IsNumber floats PropertyType.boolean) h))

  -- What is prepared of a property that may be missing.
  abbrev prepare_option : Option ArchiveProperty → Result (Option Json)
  prepare_option none = ok none
  prepare_option (some p) = prepare_property floats p

  has_member-member_of :
      (name k : ℕ) (j : Option Json) (ms : Members)
      → (k == name) ≡ false
      → has_member name ms ≡ false
      → has_member name (member_of k j ms) ≡ false
  unfolding has_member
  has_member-member_of name k none ms ne e = e
  has_member-member_of name k (some j) ms ne e = rw (ne, e)

  has_member-json_members :
      (name : ℕ) (fs : Fields) (v : FieldValues fs)
      → is_field name fs ≡ false
      → has_member name (json_members floats fs v) ≡ false
  unfolding json_members has_member
  has_member-json_members name no_fields v e = refl
  has_member-json_members name (field k s fs) v e =
      has_member-member_of name k (json_of floats s v.0) (json_members floats fs v.1) (ground arith)
        (has_member-json_members name fs v.1 (ground arith))

  prepare_object-entry_of :
      (name : ℕ) (p : Option ArchiveProperty) (j : Option Json) (o : ArchiveObject) (ms : Members)
      → prepare_option p ≡ ok j
      → prepare_object floats o ≡ ok ms
      → has_member name ms ≡ false
      → prepare_object floats (entry_of name p o) ≡ ok (member_of name j ms)
  unfolding prepare_object set_member
  prepare_object-entry_of name none none o ms ej eo new = eo
  prepare_object-entry_of name none (some j) o ms ej eo new = cc
  prepare_object-entry_of name (some p) none o ms ej eo new = rw (eo, ej)
  prepare_object-entry_of name (some p) (some j) o ms ej eo new = rw (eo, ej, new)

  prepare_elements-each_element {ℓ} :
      {A : Type ℓ} (put : A → ArchiveObject) (f : A → Members) (xs : List A)
      → Each (λ x. prepare_object floats (put x) ≡ ok (f x)) xs
      → prepare_elements floats (length xs) (each_object put xs)
        ≡ ok (each_element (λ x. Json.object (f x)) xs)
  unfolding prepare_object
  prepare_elements-each_element put f [] h = refl
  prepare_elements-each_element put f (x ∷ xs) (e, h) =
      rw (e, prepare_elements-each_element put f xs h)

  -- The document of what is archived.
  mutual
    unfolding prepare_object stored json_of IsStorable IsDistinct type_code get_property_type
        array_to_json

    prepare_option-json_of :
        (top : Bool) (s : Shape) (v : Value s)
        → IsDistinct s
        → IsStorable floats top s v
        → prepare_option (stored s v) ≡ ok (json_of floats s v)
    prepare_option-json_of top (number t) v d h = scalar_to_json-as_json floats t v h
    prepare_option-json_of top text v d h = rw (until_zero-append v h)
    prepare_option-json_of top (vec t n) v d h = rw (vec-as_json n v t h)
    prepare_option-json_of top (matrix t n) v d h = rw (vec-as_json n v t h)
    prepare_option-json_of top (array _) v d (numbers a _ h) = array-as_json v a h
    prepare_option-json_of top (array _) v d (texts _) = rw (texts-as_json v)
    prepare_option-json_of top (object fs) v (_, d) h =
        rw (prepare_object-json_members false fs v d h)
    prepare_option-json_of top (vector_of fs) [] d h = refl
    prepare_option-json_of top (vector_of fs) (x ∷ xs) d (_, h) = rw (
        prepare_elements-each_element (archived fs) (json_members floats fs) (x ∷ xs)
          (Each-map (x ∷ xs) (λ y g. prepare_object-json_members false fs y d g) h))
    prepare_option-json_of top (optional s) none d h = refl
    prepare_option-json_of top (optional s) (some v) d h = prepare_option-json_of top s v d h

    pub prepare_object-json_members :
        (top : Bool) (fs : Fields) (v : FieldValues fs)
        → AreDistinct fs
        → AreStorable floats top fs v
        → prepare_object floats (archived fs v) ≡ ok (json_members floats fs v)
    prepare_object-json_members top no_fields v d h = refl
    prepare_object-json_members top (field name s fs) v (new, (d, ds)) (h, hs) =
        prepare_object-entry_of name (stored s v.0) (json_of floats s v.0) (archived fs v.1)
          (json_members floats fs v.1) (prepare_option-json_of top s v.0 d h)
          (prepare_object-json_members top fs v.1 ds hs) (has_member-json_members name fs v.1 new)
