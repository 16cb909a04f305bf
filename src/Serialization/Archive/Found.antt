-- ===== src/Serialization/Archive/Found.antt =====
-- When `get_property` finds a value in a property: the parts of a property that holds one.
use portal_framework.Base.{
  ℕ, ◌≡◌, refl, subst, Bool, true, false, none, some, Option, List, [], ◌∷◌, length, map, Result,
  ok, arith, ◌==◌,
}
use portal_framework.Base.Ordered.{Each, Each-map}
use portal_framework.Serialization.Property.{PropertyType, type_code, container_code}
use portal_framework.Serialization.Archive.{
  ArchiveObject, empty, entry, ArchiveProperty, contains, get_property_from_map, no_property, Shape,
  number, text, vec, matrix, array, object, vector_of, optional, Fields, no_fields, field,
  has_fields, Value, FieldValues, array_property, object_property, element_name, text_property,
}
use portal_framework.Serialization.Archive.Reading.{
  Floats, get_number, get_text, get_array, get_packed, get_object, get_each, blank, blank_fields,
  get_property, dearchive, found,
}
use portal_framework.Serialization.Archive.Bytes.{read_bytes-text}
use portal_framework.Serialization.Archive.Stored.{
  entry_of, each_object, is_field, is_optional, get_property_from_map-missing,
}

-- The property, or `Property{}` where there is none.
abbrev pub property_or_none : Option ArchiveProperty → ArchiveProperty
property_or_none none = no_property
property_or_none (some p) = p

-- The loop over objects that stand for the elements of a list.
pub get_each-map {ℓ κ} :
    {A : Type ℓ} {B : Type κ} (get : ArchiveObject → Result (Bool × A)) (put : B → ArchiveObject)
    (w : A → B) (xs : List A)
    → Each (λ x. get (put (w x)) ≡ ok (true, x)) xs
    → get_each get (length (map w xs)) (each_object put (map w xs)) ≡ ok (true, xs)
get_each-map get put w [] h = refl
get_each-map get put w (x ∷ xs) (e, h) = rw (e, get_each-map get put w xs h)

pub get_each-each_object {ℓ} :
    {A : Type ℓ} (get : ArchiveObject → Result (Bool × A)) (f : A → ArchiveObject) (xs : List A)
    → Each (λ x. get (f x) ≡ ok (true, x)) xs
    → get_each get (length xs) (each_object f xs) ≡ ok (true, xs)
get_each-each_object get f [] h = refl
get_each-each_object get f (x ∷ xs) (e, h) = rw (e, get_each-each_object get f xs h)

module _ (floats : Floats) where
  -- Reading a value of this shape under a name that has the property finds the value.
  abbrev pub Holds : (s : Shape) → ArchiveProperty → Value s → Type 0
  Holds s p v =
      (name : ℕ) (out : Value s) (o : ArchiveObject)
      → get_property_from_map name o ≡ p
      → get_property floats s name out o ≡ ok (true, v)

  abbrev pub HoldsFields : (fs : Fields) → ArchiveObject → FieldValues fs → Type 0
  HoldsFields fs o v = (out : FieldValues fs) → dearchive floats fs out o ≡ ok v

  pub array-Holds :
      (s : Shape) (t : PropertyType) (f : Value s → Option ArchiveProperty) (v : List (Value s))
      → Each
          (λ x.
            get_property floats s element_name (blank s) (entry_of element_name (f x) empty)
            ≡ ok (true, x))
          v
      → (name : ℕ) (out : Value (array s)) (o : ArchiveObject)
      → get_property_from_map name o
        ≡ array_property t (length v) (each_object (λ x. entry_of element_name (f x) empty) v)
      → get_property floats (array s) name out o ≡ ok (true, v)
  unfolding get_property get_array container_code
  array-Holds s t f v h name out o e = rw (
    e,
    get_each-each_object (λ q. get_property floats s element_name (blank s) q)
        (λ x. entry_of element_name (f x) empty) v h,
  )

  pub vector_of-Holds :
      (fs : Fields) (f : FieldValues fs → ArchiveObject) (v : List (FieldValues fs))
      → Each (λ x. HoldsFields fs (f x) x) v
      → Holds (vector_of fs) (array_property PropertyType.object (length v) (each_object f v)) v
  unfolding get_property get_array container_code
  vector_of-Holds fs f v h name out o e = rw (
    e,
    get_each-each_object (λ q. found (dearchive floats fs (blank_fields fs) q)) f v
        (Each-map v (λ x all. rw (all (blank_fields fs))) h),
  )

  pub object-Holds :
      (fs : Fields) (q : ArchiveObject) (v : FieldValues fs)
      → has_fields fs ≡ true
      → HoldsFields fs q v
      → Holds (object fs) (object_property q) v
  unfolding get_property get_object
  object-Holds fs q v some_field h name out o e = rw (some_field, e, h out)

  -- The properties of an object, field by field.
  unfoldable pub AllHold : (fs : Fields) → ArchiveObject → FieldValues fs → Type 0
  AllHold no_fields o v = Unit
  AllHold (field name s fs) o v = Holds s (get_property_from_map name o) v.0 × AllHold fs o v.1

  pub AllHold-HoldsFields :
      (fs : Fields) (o : ArchiveObject) (v : FieldValues fs) → AllHold fs o v → HoldsFields fs o v
  unfolding AllHold dearchive
  AllHold-HoldsFields no_fields o v h out = refl
  AllHold-HoldsFields (field name s fs) o v (h, hs) out =
      rw (h name out.0 o refl, AllHold-HoldsFields fs o v.1 hs out.1)

  AllHold-entry :
      (fs : Fields) (k : ℕ) (p : ArchiveProperty) (o : ArchiveObject) (v : FieldValues fs)
      → is_field k fs ≡ false
      → AllHold fs o v
      → AllHold fs (entry k p o) v
  unfolding AllHold get_property_from_map
  AllHold-entry no_fields k p o v ne h = tt
  AllHold-entry (field name s fs) k p o v ne (h, hs) =
      let other : (k == name) ≡ false = ground arith in
      (rw other h, AllHold-entry fs k p o v.1 (ground arith) hs)

  pub field-AllHold :
      (name : ℕ) (s : Shape) (fs : Fields) (p : Option ArchiveProperty) (o : ArchiveObject)
      (x : Value s) (v : FieldValues fs)
      → is_field name fs ≡ false
      → contains name o ≡ false
      → Holds s (property_or_none p) x
      → AllHold fs o v
      → AllHold (field name s fs) (entry_of name p o) (x, v)
  unfolding AllHold get_property_from_map
  field-AllHold name s fs none o x v ne e h hs = (rw (get_property_from_map-missing name o e) h, hs)
  field-AllHold name s fs (some p) o x v ne e h hs =
      let own : p ≡ get_property_from_map name (entry name p o) = ground arith in
      (subst (λ q. Holds s q x) own h, AllHold-entry fs name p o v ne hs)

  pub text-Holds : (v : List ℕ) → Holds text (text_property v) v
  unfolding get_property get_text type_code container_code
  text-Holds v name out o e = rw (e, read_bytes-text v)

  -- A name that is missing leaves an optional value empty.
  pub missing-Holds :
      (s : Shape) → is_optional s ≡ false → Holds (optional s) (property_or_none none) none
  unfolding get_property get_number get_text get_array get_packed get_object type_code
      container_code
  missing-Holds (number t) plain name out o e = rw e
  missing-Holds text plain name out o e = rw e
  missing-Holds (vec t n) plain name out o e = rw e
  missing-Holds (matrix t n) plain name out o e = rw e
  missing-Holds (array s) plain name out o e = rw e
  missing-Holds (object no_fields) plain name out o e = refl
  missing-Holds (object (field k s fs)) plain name out o e = rw e
  missing-Holds (vector_of fs) plain name out o e = rw e
  missing-Holds (optional s) plain name out o e = cc

  pub some-Holds :
      (s : Shape) (p : Option ArchiveProperty) (v : Value s)
      → Holds s (property_or_none p) v
      → Holds (optional s) (property_or_none p) (some v)
  unfolding get_property
  some-Holds s p v h name out o e = rw (h name (blank s) o e)
