-- ===== src/Serialization/JsonArchive/RoundTrip.antt =====
-- What is archived, dumped as JSON and read again is found again.
use portal_framework.Base.{
  ℕ, ◌≡◌, ◌∙◌, refl, subst, Bool, true, false, none, some, List, [], ◌∷◌, ◌++◌, map, length,
  length-map, Result, ok, ◌==◌, arith, take, drop,
}
use portal_framework.Base.Ordered.{Each, Each-map}
use portal_framework.Serialization.Property.{
  PropertyType, PropertyContainerType, type_code, container_code,
}
use portal_framework.Serialization.Binary.Bytes.{take-append}
use portal_framework.Serialization.Archive.{
  ArchiveObject, empty, entry, contains, Shape, number, text, vec, matrix, array, object, vector_of,
  optional, Fields, no_fields, field, Value, FieldValues, get_property_type, text_property,
  is_invalid, number_property, element_name, get_property_from_map,
}
use portal_framework.Serialization.Archive.Reading.{
  Floats, get_property, get_number, blank, get_array, get_packed, get_each,
}
use portal_framework.Serialization.Archive.Stored.{
  each_object, is_field, AreDistinct, IsDistinct, contains-entry_of,
}
use portal_framework.Serialization.Archive.Found.{
  Holds, HoldsFields, AllHold, vector_of-Holds, object-Holds, AllHold-HoldsFields, field-AllHold,
  property_or_none, text-Holds, missing-Holds, some-Holds, get_each-map, get_each-each_object,
}
use portal_framework.Serialization.JsonArchive.Written.{
  wide_type, wide, numbers_read, texts_read, objects_read, reread, reread_fields, IsNumber,
  IsArithmetic, integer8, integer16, integer32, integer64, floating32, floating64, boolean,
  IsPacked, numbers, texts, IsStorable, AreStorable,
}
use portal_framework.Serialization.JsonArchive.Numbers.{number-Holds, element-Holds}

Each-all {ℓ κ} : {A : Type ℓ} {P : A → Type κ} (xs : List A) → ((x : A) → P x) → Each P xs
Each-all [] f = tt
Each-all (x ∷ xs) f = (f x, Each-all xs f)

module _ (floats : Floats) where
  numbers-Holds :
      (t u : PropertyType) (v : List (List ℕ))
      → Each (λ x. Holds floats (number u) (number_property (wide_type t) (wide floats t x)) x) v
      → Holds floats (array (number u)) (numbers_read floats t v) v
  unfolding get_property get_array get_property_from_map container_code
  numbers-Holds t u [] h name out o e = rw e
  numbers-Holds t u (x ∷ xs) h name out o e = rw (
    e,
    get_each-map (λ q. get_property floats (number u) element_name (blank (number u)) q)
        (λ y. entry element_name (number_property (wide_type t) y) empty) (wide floats t) (x ∷ xs)
        (Each-map (x ∷ xs)
          (λ y g.
            g element_name _
              (entry element_name (number_property (wide_type t) (wide floats t y)) empty) refl)
          h),
  )

  wide_type-valid : (t : PropertyType) → IsArithmetic t → is_invalid (wide_type t) ≡ false
  unfolding type_code
  wide_type-valid _ integer8 = refl
  wide_type-valid _ integer16 = refl
  wide_type-valid _ integer32 = refl
  wide_type-valid _ integer64 = refl
  wide_type-valid _ floating32 = refl
  wide_type-valid _ floating64 = refl
  wide_type-valid _ boolean = refl

  module _ (t : PropertyType) (n : ℕ) where
    number-Each :
        (v : List (List ℕ))
        → Each (IsNumber floats t) v
        → Each
            (λ x.
              get_number floats t [] (number_property (wide_type t) (wide floats t x))
              ≡ ok (true, x))
            v
    unfolding get_property get_property_from_map
    number-Each v h =
        Each-map v
          (λ x g.
            number-Holds floats t x g element_name []
              (entry element_name (number_property (wide_type t) (wide floats t x)) empty) refl)
          h

    -- The elements of a GLM vector or matrix, whichever of the two is its own container.
    packed-found :
        (own : PropertyContainerType) (v out : List (List ℕ))
        → (container_code PropertyContainerType.array == container_code own) ≡ false
        → IsPacked floats t n v
        → get_packed floats own t n out (numbers_read floats t v) ≡ ok (true, v)
    unfolding get_packed container_code type_code get_property_from_map
    packed-found own [] out other (a, (ne, (size, (pos, h)))) = absurd (omega arith)
    packed-found own (x ∷ xs) out other (a, (ne, (size, (pos, h)))) =
        let v : List (List ℕ) = x ∷ xs in
        let get : ArchiveObject → Result (Bool × List ℕ) =
          λ o. get_number floats t [] (get_property_from_map element_name o) in
        let put : List ℕ → ArchiveObject =
          λ y. entry element_name (number_property (wide_type t) y) empty in
        let valid = wide_type-valid t a in
        let all : length (map (wide floats t) v) ≡ n = length-map v (wide floats t) ∙ size in
        let same : (length (map (wide floats t) v) == n) ≡ true = ground (arith, all) in
        let loop : get_each get n (each_object put (map (wide floats t) v)) ≡ ok (true, v) =
          subst (λ m. get_each get m (each_object put (map (wide floats t) v)) ≡ ok (true, v)) all
            (get_each-map get put (wide floats t) v (number-Each v h)) in
        let whole : take n (v ++ drop (length v) out) ≡ v =
          subst (λ m. take m (v ++ drop (length v) out) ≡ v) size
            (take-append v (drop (length v) out)) in
        rw (valid, other, same, loop, whole)

  texts-Holds : (v : List (List ℕ)) → Holds floats (array text) (texts_read v) v
  unfolding get_property get_array get_property_from_map container_code
  texts-Holds [] name out o e = rw e
  texts-Holds (x ∷ xs) name out o e = rw (
    e,
    get_each-each_object (λ q. get_property floats text element_name (blank text) q)
        (λ y. entry element_name (text_property y) empty) (x ∷ xs)
        (Each-all (x ∷ xs) (λ y.
          text-Holds floats y element_name (blank text) (entry element_name (text_property y) empty)
            refl)),
  )

  objects-Holds :
      (fs : Fields) (f : FieldValues fs → ArchiveObject) (v : List (FieldValues fs))
      → Each (λ x. HoldsFields floats fs (f x) x) v
      → Holds floats (vector_of fs) (objects_read f v) v
  unfolding get_property get_array container_code
  objects-Holds fs f [] h name out o e = rw e
  objects-Holds fs f (x ∷ xs) h name out o e = vector_of-Holds floats fs f (x ∷ xs) h name out o e

  contains-reread_fields :
      (name : ℕ) (fs : Fields) (v : FieldValues fs)
      → is_field name fs ≡ false
      → contains name (reread_fields floats fs v) ≡ false
  unfolding reread contains
  contains-reread_fields name no_fields v e = refl
  contains-reread_fields name (field k s fs) v e =
      contains-entry_of name k (reread floats s v.0) (reread_fields floats fs v.1) (ground arith)
        (contains-reread_fields name fs v.1 (ground arith))

  mutual
    unfolding reread IsStorable IsDistinct AllHold get_property container_code

    reread-Holds :
        (top : Bool) (s : Shape) (v : Value s)
        → IsDistinct s
        → IsStorable floats top s v
        → Holds floats s (property_or_none (reread floats s v)) v
    reread-Holds top (number t) v d h = number-Holds floats t v h
    reread-Holds top text v d h = text-Holds floats v
    reread-Holds top (vec t n) v d h =
        λ name out o e. rw (e, packed-found t n PropertyContainerType.vector v out refl h)
    reread-Holds top (matrix t n) v d h =
        λ name out o e. rw (e, packed-found t n PropertyContainerType.matrix v out refl h)
    reread-Holds top (array _) v d (numbers {t = t} a full h) =
        numbers-Holds (get_property_type (number t)) t v (Each-map v (element-Holds floats t) h)
    reread-Holds top (array _) v d (texts full) = texts-Holds v
    reread-Holds top (object fs) v (some_field, d) h =
        object-Holds floats fs (reread_fields floats fs v) v some_field (
          AllHold-HoldsFields floats fs (reread_fields floats fs v) v
            (reread_fields-AllHold false fs v d h))
    reread-Holds top (vector_of fs) v d (full, h) = objects-Holds fs (reread_fields floats fs) v (
        Each-map v
          (λ x g.
            AllHold-HoldsFields floats fs (reread_fields floats fs x) x
              (reread_fields-AllHold false fs x d g))
          h)
    reread-Holds top (optional s) none d h = missing-Holds floats s h
    reread-Holds top (optional s) (some v) d h =
        some-Holds floats s (reread floats s v) v (reread-Holds top s v d h)

    reread_fields-AllHold :
        (top : Bool) (fs : Fields) (v : FieldValues fs)
        → AreDistinct fs
        → AreStorable floats top fs v
        → AllHold floats fs (reread_fields floats fs v) v
    reread_fields-AllHold top no_fields v d h = tt
    reread_fields-AllHold top (field name s fs) v (new, (d, ds)) (h, hs) =
        field-AllHold floats name s fs (reread floats s v.0) (reread_fields floats fs v.1) v.0 v.1
          new (contains-reread_fields name fs v.1 new) (reread-Holds top s v.0 d h)
          (reread_fields-AllHold top fs v.1 ds hs)
