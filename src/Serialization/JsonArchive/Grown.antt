-- ===== src/Serialization/JsonArchive/Grown.antt =====
-- The property that each kind of JSON value becomes.
use portal_framework.Base.{
  ℕ, ◌≡◌, ◌≢◌, refl, subst, Bool, true, false, Option, none, some, List, [], ◌∷◌, map, length,
  Result, ok, ◌>>=◌, arith,
}
use portal_framework.Base.Ordered.{Each}
use portal_framework.Serialization.Property.{PropertyType}
use portal_framework.Serialization.Binary.{of_bytes}
use portal_framework.Serialization.Archive.{
  ArchiveObject, empty, ArchiveProperty, contains, number, text, array, get_property_type,
  number_property,
}
use portal_framework.Serialization.Archive.Reading.{Floats}
use portal_framework.Serialization.Archive.Stored.{
  append, entry_of, each_object, stored, IsDistinct, add_property_to_map-new, add_property-stored,
}
use portal_framework.Serialization.JsonArchive.{
  Json, Members, no_elements, string, number_unsigned, number_float, each_element, JsonLibrary,
}
use portal_framework.Serialization.JsonArchive.Deserialize.{
  Built, settle, size, get_all, as_bits, add_numbers, deserialize_scalar, deserialize_values,
  deserialize_object, deserialize_members, deserialize_value, deserialize_array,
  deserialize_objects, empty_array,
}
use portal_framework.Serialization.JsonArchive.Written.{
  member_of, wide_type, wide, as_json, numbers_read, texts_read, objects_read, IsFilled,
  IsArithmetic, integer8, integer16, integer32, integer64, floating32, floating64, boolean,
  IsNumber, IsPacked, one_byte, two_bytes, four_bytes, eight_bytes, single, double, bool,
}
use portal_framework.Serialization.JsonArchive.Numbers.{deserialize_scalar-as_json}

-- `get<T>` gives what a value of the type's own kind holds.
pub record IsDocumented (json : JsonLibrary) : Type 0 where
  pub get_unsigned : (n : ℕ) → json.get_unsigned (number_unsigned n) ≡ ok n
  pub get_float : (x : List ℕ) → json.get_float (number_float x) ≡ ok x
  pub get_string : (s : List ℕ) → json.get_string (string s) ≡ ok s

get_all-each_element {ℓ} :
    {A : Type ℓ} {B : Type ℓ} (get : Json → Result B) (f : A → Json) (g : A → B) (xs : List A)
    → ((x : A) → get (f x) ≡ ok (g x))
    → get_all get (each_element f xs) ≡ ok (map g xs)
get_all-each_element get f g [] h = refl
get_all-each_element get f g (x ∷ xs) h = rw (h x, get_all-each_element get f g xs h)

map-id {ℓ} : {A : Type ℓ} (xs : List A) → map (λ x. x) xs ≡ xs
map-id [] = refl
map-id (x ∷ xs) = rw (map-id xs)

size-each_element {ℓ} :
    {A : Type ℓ} (f : A → Json) (xs : List A) → size (each_element f xs) ≡ length xs
size-each_element f [] = refl
size-each_element f (x ∷ xs) = rw (size-each_element f xs)

pub settle-none : (top : Bool) (root : ArchiveObject) → settle top [] root ≡ ok (root, [])
unfolding settle
settle-none true root = refl
settle-none false root = refl

-- A property that a new name is given.
abbrev pub grown : ℕ → Option ArchiveProperty → ArchiveObject → Built
grown name p root = ok (append root (entry_of name p empty), [])

module _ (floats : Floats) (json : JsonLibrary) (doc : IsDocumented json) where
  pub all-grown :
      (get : Json → Result (List ℕ)) (t u : PropertyType) (v : List (List ℕ)) (name : ℕ)
      (root : ArchiveObject)
      → ((y : List ℕ) → get (as_json floats t y) ≡ ok (wide floats t y))
      → contains name root ≡ false
      → (get_all get (each_element (λ y. as_json floats t y) v) >>= add_numbers u name root)
        ≡ grown name (stored (array (number u)) (map (wide floats t) v)) root
  unfolding IsDistinct stored
  all-grown get t u v name root h e = rw (
    get_all-each_element get (as_json floats t) (wide floats t) v h,
    add_property-stored (array (number u)) name (map (wide floats t) v) root tt e,
  )

  pub numbers-grown :
      (top : Bool) (t : PropertyType) (x : List ℕ) (xs : List (List ℕ)) (name : ℕ)
      (root : ArchiveObject)
      → IsArithmetic t
      → t ≢ PropertyType.boolean
      → contains name root ≡ false
      → deserialize_array json top name (each_element (λ y. as_json floats t y) (x ∷ xs)) root
        ≡ grown name (some (numbers_read floats t (x ∷ xs))) root
  unfolding deserialize_object deserialize_values stored get_property_type IsDistinct
  numbers-grown top _ x xs name root integer8 ne e =
      all-grown (λ j. as_bits (json.get_unsigned j)) PropertyType.integer8 PropertyType.integer64
        (x ∷ xs) name root (λ y. rw (doc.get_unsigned (of_bytes y))) e
  numbers-grown top _ x xs name root integer16 ne e =
      all-grown (λ j. as_bits (json.get_unsigned j)) PropertyType.integer16 PropertyType.integer64
        (x ∷ xs) name root (λ y. rw (doc.get_unsigned (of_bytes y))) e
  numbers-grown top _ x xs name root integer32 ne e =
      all-grown (λ j. as_bits (json.get_unsigned j)) PropertyType.integer32 PropertyType.integer64
        (x ∷ xs) name root (λ y. rw (doc.get_unsigned (of_bytes y))) e
  numbers-grown top _ x xs name root integer64 ne e =
      all-grown (λ j. as_bits (json.get_unsigned j)) PropertyType.integer64 PropertyType.integer64
        (x ∷ xs) name root (λ y. rw (doc.get_unsigned (of_bytes y))) e
  numbers-grown top _ x xs name root floating32 ne e =
      all-grown json.get_float PropertyType.floating32 PropertyType.floating64 (x ∷ xs) name root
        (λ y. rw (doc.get_float (wide floats PropertyType.floating32 y))) e
  numbers-grown top _ x xs name root floating64 ne e =
      all-grown json.get_float PropertyType.floating64 PropertyType.floating64 (x ∷ xs) name root
        (λ y. rw (doc.get_float (wide floats PropertyType.floating64 y))) e
  numbers-grown top _ x xs name root boolean ne e = absurd (ne refl)

  pub texts-grown :
      (top : Bool) (x : List ℕ) (xs : List (List ℕ)) (name : ℕ) (root : ArchiveObject)
      → contains name root ≡ false
      → deserialize_array json top name (each_element string (x ∷ xs)) root
        ≡ grown name (some (texts_read (x ∷ xs))) root
  unfolding deserialize_object deserialize_values stored get_property_type IsDistinct
  texts-grown top x xs name root e = rw (
    get_all-each_element json.get_string string (λ s. s) (x ∷ xs) doc.get_string,
    map-id (x ∷ xs),
    add_property-stored (array text) name (x ∷ xs) root tt e,
  )

  abbrev pub deserialize_option : Bool → ℕ → Option Json → ArchiveObject → Built
  deserialize_option top name none root = ok (root, [])
  deserialize_option top name (some j) root = deserialize_value json top name j root

  pub deserialize_members-member_of :
      (top : Bool) (name : ℕ) (j : Option Json) (ms : Members) (root : ArchiveObject)
      {o o' : ArchiveObject}
      → deserialize_option top name j root ≡ ok (o, [])
      → deserialize_members json top ms o ≡ ok (o', [])
      → deserialize_members json top (member_of name j ms) root ≡ ok (o', [])
  unfolding deserialize_object
  deserialize_members-member_of top name none ms root {o = o} {o' = o'} e es =
      let own : o ≡ root = cc in subst (λ q. deserialize_members json top ms q ≡ ok (o', [])) own es
  deserialize_members-member_of top name (some j) ms root e es = rw (e, es)

  pub objects-grown {ℓ} :
      {A : Type ℓ} (f : A → Members) (g : A → ArchiveObject) (xs : List A)
      → Each (λ x. deserialize_members json false (f x) empty ≡ ok (g x, [])) xs
      → deserialize_objects json (each_element (λ x. Json.object (f x)) xs)
        ≡ ok (each_object g xs, [])
  unfolding deserialize_object
  objects-grown f g [] h = refl
  objects-grown f g (x ∷ xs) (e, h) = rw (e, objects-grown f g xs h)

  pub empty-grown :
      (name : ℕ) (root : ArchiveObject)
      → contains name root ≡ false
      → deserialize_array json true name no_elements root ≡ grown name (some empty_array) root
  unfolding deserialize_object settle
  empty-grown name root e = rw (add_property_to_map-new name empty_array root e)

  pub deserialize_value-as_json :
      (t : PropertyType) (v : List ℕ) (top : Bool) (name : ℕ) (root : ArchiveObject)
      → IsNumber floats t v
      → deserialize_value json top name (as_json floats t v) root
        ≡ deserialize_scalar name (as_json floats t v) root
  unfolding deserialize_object
  deserialize_value-as_json _ _ top name root (one_byte h) = refl
  deserialize_value-as_json _ _ top name root (two_bytes h) = refl
  deserialize_value-as_json _ _ top name root (four_bytes h) = refl
  deserialize_value-as_json _ _ top name root (eight_bytes h) = refl
  deserialize_value-as_json _ _ top name root (single _ _ _) = refl
  deserialize_value-as_json _ _ top name root (double h) = refl
  deserialize_value-as_json _ _ top name root (bool b) = refl

  pub number-grown :
      (top : Bool) (t : PropertyType) (v : List ℕ) (name : ℕ) (root : ArchiveObject)
      → IsNumber floats t v
      → contains name root ≡ false
      → deserialize_value json top name (as_json floats t v) root
        ≡ grown name (some (number_property (wide_type t) (wide floats t v))) root
  unfolding stored IsDistinct
  number-grown top t v name root h e = rw (
    deserialize_value-as_json t v top name root h,
    deserialize_scalar-as_json floats t v name root h,
    add_property-stored (number (wide_type t)) name (wide floats t v) root tt e,
  )

  pub array-grown :
      (top : Bool) (t : PropertyType) (v : List (List ℕ)) (name : ℕ) (root : ArchiveObject)
      → IsArithmetic t
      → t ≢ PropertyType.boolean
      → IsFilled top v
      → contains name root ≡ false
      → deserialize_array json top name (each_element (λ y. as_json floats t y) v) root
        ≡ grown name (some (numbers_read floats t v)) root
  array-grown true t [] name root a ne f e = empty-grown name root e
  array-grown false t [] name root a ne f e = elim f [ ]
  array-grown top t (x ∷ xs) name root a ne f e = numbers-grown top t x xs name root a ne e

  pub packed-grown :
      (top : Bool) (t : PropertyType) (n : ℕ) (v : List (List ℕ)) (name : ℕ) (root : ArchiveObject)
      → IsPacked floats t n v
      → contains name root ≡ false
      → deserialize_array json top name (each_element (λ y. as_json floats t y) v) root
        ≡ grown name (some (numbers_read floats t v)) root
  packed-grown top t n [] name root (a, (ne, (size, (pos, _)))) e = absurd (omega arith)
  packed-grown top t n (x ∷ xs) name root (a, (ne, _)) e = numbers-grown top t x xs name root a ne e

  -- `bool` has the type `integer8` in a vector.
  pub element-IsArithmetic :
      (t : PropertyType)
      → IsArithmetic t
      → IsArithmetic (get_property_type (number t))
        × (get_property_type (number t) ≢ PropertyType.boolean)
  unfolding get_property_type
  element-IsArithmetic _ integer8 = (integer8, λ e. cc)
  element-IsArithmetic _ integer16 = (integer16, λ e. cc)
  element-IsArithmetic _ integer32 = (integer32, λ e. cc)
  element-IsArithmetic _ integer64 = (integer64, λ e. cc)
  element-IsArithmetic _ floating32 = (floating32, λ e. cc)
  element-IsArithmetic _ floating64 = (floating64, λ e. cc)
  element-IsArithmetic _ boolean = (integer8, λ e. cc)

  pub texts_or_empty-grown :
      (top : Bool) (v : List (List ℕ)) (name : ℕ) (root : ArchiveObject)
      → IsFilled top v
      → contains name root ≡ false
      → deserialize_array json top name (each_element string v) root
        ≡ grown name (some (texts_read v)) root
  texts_or_empty-grown true [] name root f e = empty-grown name root e
  texts_or_empty-grown false [] name root f e = elim f [ ]
  texts_or_empty-grown top (x ∷ xs) name root f e = texts-grown top x xs name root e

  pub vector_of-grown {ℓ} :
      {A : Type ℓ} (top : Bool) (f : A → Members) (g : A → ArchiveObject) (v : List A) (name : ℕ)
      (root : ArchiveObject)
      → Each (λ x. deserialize_members json false (f x) empty ≡ ok (g x, [])) v
      → IsFilled top v
      → contains name root ≡ false
      → deserialize_array json top name (each_element (λ x. Json.object (f x)) v) root
        ≡ grown name (some (objects_read g v)) root
  unfolding deserialize_object
  vector_of-grown true f g [] name root h full e = empty-grown name root e
  vector_of-grown false f g [] name root h full e = elim full [ ]
  vector_of-grown top f g (x ∷ xs) name root (h, hs) full e = rw (
    h,
    objects-grown f g xs hs,
    settle-none top root,
    size-each_element (λ y. Json.object (f y)) xs,
    add_property_to_map-new name (objects_read g (x ∷ xs)) root e,
  )
