-- ===== src/Serialization/Archive/Stored.antt =====
-- What `add_property` leaves in an archive, written out as a value.
use portal_framework.Base.{
  ℕ, ◌≡◌, refl, Bool, true, false, Option, none, some, List, [], ◌∷◌, length, Result, ok, arith,
  ◌==◌, ◌||◌,
}
use portal_framework.Serialization.Property.{PropertyType, PropertyContainerType, type_code}
use portal_framework.Serialization.Archive.{
  ArchiveObject, empty, entry, ArchiveProperty, ArchiveObjects, nil, more, contains,
  get_property_from_map, add_property_to_map, no_property, Shape, number, text, vec, matrix, array,
  object, vector_of, optional, Fields, no_fields, field, has_fields, Value, FieldValues,
  get_property_type, number_property, text_property, packed_property, array_property,
  object_property, archive_each, element_name, add_property, archive, assign,
}

abbrev pub append : ArchiveObject → ArchiveObject → ArchiveObject
append empty o = o
append (entry k p q) o = entry k p (append q o)

-- An entry for a property that may be missing.
abbrev pub entry_of : ℕ → Option ArchiveProperty → ArchiveObject → ArchiveObject
entry_of name none o = o
entry_of name (some p) o = entry name p o

abbrev pub each_object {ℓ} : {A : Type ℓ} → (A → ArchiveObject) → List A → ArchiveObjects
each_object f [] = nil
each_object f (x ∷ xs) = more (f x) (each_object f xs)

unfoldable mutual
  pub stored : (s : Shape) → Value s → Option ArchiveProperty
  stored (number t) v = some (number_property t v)
  stored text v = some (text_property v)
  stored (vec t n) v = some (packed_property PropertyContainerType.vector t n v)
  stored (matrix t n) v = some (packed_property PropertyContainerType.matrix t n v)
  stored (array s) v = some (
      array_property (get_property_type s) (length v)
        (each_object (λ x. entry_of element_name (stored s x) empty) v))
  stored (object fs) v = some (object_property (archived fs v))
  stored (vector_of fs) v =
      some (array_property PropertyType.object (length v) (each_object (λ x. archived fs x) v))
  stored (optional s) none = none
  stored (optional s) (some v) = stored s v

  pub archived : (fs : Fields) → FieldValues fs → ArchiveObject
  archived no_fields v = empty
  archived (field name s fs) v = entry_of name (stored s v.0) (archived fs v.1)

abbrev pub is_field : ℕ → Fields → Bool
is_field name no_fields = false
is_field name (field k s fs) = k == name || is_field name fs

abbrev pub is_optional : Shape → Bool
is_optional (optional s) = true
is_optional s = false

-- Each aggregate has a field, and the fields of an object have names of their own.
unfoldable mutual
  pub IsDistinct : Shape → Type 0
  IsDistinct (array s) = IsDistinct s
  IsDistinct (object fs) = (has_fields fs ≡ true) × AreDistinct fs
  IsDistinct (vector_of fs) = AreDistinct fs
  IsDistinct (optional s) = IsDistinct s
  IsDistinct s = Unit

  pub AreDistinct : Fields → Type 0
  AreDistinct no_fields = Unit
  AreDistinct (field name s fs) = (is_field name fs ≡ false) × ((IsDistinct s) × (AreDistinct fs))

-- An archive without properties of these names.
abbrev pub IsWithout : Fields → ArchiveObject → Type 0
IsWithout no_fields o = Unit
IsWithout (field name s fs) o = (contains name o ≡ false) × IsWithout fs o

pub empty-IsWithout : (fs : Fields) → IsWithout fs empty
unfolding contains
empty-IsWithout no_fields = tt
empty-IsWithout (field name s fs) = (refl, empty-IsWithout fs)

contains-append :
    (name k : ℕ) (p : Option ArchiveProperty) (o : ArchiveObject)
    → (k == name) ≡ false
    → contains name o ≡ false
    → contains name (append o (entry_of k p empty)) ≡ false
unfolding contains
contains-append name k none empty ne e = refl
contains-append name k (some p) empty ne e = rw ne
contains-append name k p (entry j q o) ne e = ground (arith, contains-append name k p o ne)

pub contains-entry_of :
    (name k : ℕ) (p : Option ArchiveProperty) (o : ArchiveObject)
    → (k == name) ≡ false
    → contains name o ≡ false
    → contains name (entry_of k p o) ≡ false
unfolding contains
contains-entry_of name k none o ne e = e
contains-entry_of name k (some p) o ne e = rw (ne, e)

pub append-IsWithout :
    (fs : Fields) (k : ℕ) (p : Option ArchiveProperty) (o : ArchiveObject)
    → is_field k fs ≡ false
    → IsWithout fs o
    → IsWithout fs (append o (entry_of k p empty))
append-IsWithout no_fields k p o ne h = tt
append-IsWithout (field name s fs) k p o ne (h, hs) =
    (contains-append name k p o (ground arith) h, append-IsWithout fs k p o (ground arith) hs)

pub append-entry_of :
    (o : ArchiveObject) (k : ℕ) (p : Option ArchiveProperty) (q : ArchiveObject)
    → append (append o (entry_of k p empty)) q ≡ append o (entry_of k p q)
append-entry_of empty k none q = refl
append-entry_of empty k (some p) q = refl
append-entry_of (entry j r o) k p q = rw (append-entry_of o k p q)

pub append-empty : (o : ArchiveObject) → append o empty ≡ o
append-empty empty = refl
append-empty (entry k p o) = rw (append-empty o)

pub get_property_from_map-missing :
    (name : ℕ) (o : ArchiveObject)
    → contains name o ≡ false
    → get_property_from_map name o ≡ no_property
unfolding contains get_property_from_map
get_property_from_map-missing name empty e = refl
get_property_from_map-missing name (entry k p o) e =
    ground (arith, get_property_from_map-missing name o)

assign-new :
    (name : ℕ) (p : ArchiveProperty) (o : ArchiveObject)
    → contains name o ≡ false
    → assign name p o ≡ append o (entry name p empty)
unfolding contains
assign-new name p empty e = refl
assign-new name p (entry k q o) e = ground (arith, assign-new name p o)

-- A property of a new name comes last.
pub add_property_to_map-new :
    (name : ℕ) (p : ArchiveProperty) (o : ArchiveObject)
    → contains name o ≡ false
    → add_property_to_map name p o ≡ ok (append o (entry name p empty))
unfolding add_property_to_map type_code
add_property_to_map-new name p o e =
    rw (get_property_from_map-missing name o e, assign-new name p o e)

archive_each-each_object {ℓ} :
    {A : Type ℓ} (put : A → ArchiveObject → Result ArchiveObject) (f : A → ArchiveObject)
    (xs : List A)
    → ((x : A) → put x empty ≡ ok (f x))
    → archive_each put xs ≡ ok (each_object f xs)
archive_each-each_object put f [] h = refl
archive_each-each_object put f (x ∷ xs) h = rw (h x, archive_each-each_object put f xs h)

-- The properties that `add_property` and `archive` add under new names.
mutual
  unfolding add_property stored IsDistinct contains

  pub add_property-stored :
      (s : Shape) (name : ℕ) (v : Value s) (o : ArchiveObject)
      → IsDistinct s
      → contains name o ≡ false
      → add_property s name v o ≡ ok (append o (entry_of name (stored s v) empty))
  add_property-stored (number t) name v o d e = add_property_to_map-new name _ o e
  add_property-stored text name v o d e = add_property_to_map-new name _ o e
  add_property-stored (vec t n) name v o d e = add_property_to_map-new name _ o e
  add_property-stored (matrix t n) name v o d e = add_property_to_map-new name _ o e
  add_property-stored (array s) name v o d e =
      let each =
        archive_each-each_object (add_property s element_name)
          (λ x. entry_of element_name (stored s x) empty) v
          (λ x. add_property-stored s element_name x empty d refl) in
      rw (each, add_property_to_map-new name _ o e)
  add_property-stored (object fs) name v o (some_field, d) e = rw (
    some_field,
    archive-archived fs v empty d (empty-IsWithout fs),
    add_property_to_map-new name _ o e,
  )
  add_property-stored (vector_of fs) name v o d e =
      let each =
        archive_each-each_object (archive fs) (archived fs) v
          (λ x. archive-archived fs x empty d (empty-IsWithout fs)) in
      rw (each, add_property_to_map-new name _ o e)
  add_property-stored (optional s) name none o d e = rw (append-empty o)
  add_property-stored (optional s) name (some v) o d e = add_property-stored s name v o d e

  pub archive-archived :
      (fs : Fields) (v : FieldValues fs) (o : ArchiveObject)
      → AreDistinct fs
      → IsWithout fs o
      → archive fs v o ≡ ok (append o (archived fs v))
  archive-archived no_fields v o d w = rw (append-empty o)
  archive-archived (field name s fs) v o (new, (d, ds)) (e, w) =
      let p = stored s v.0 in
      rw (
        add_property-stored s name v.0 o d e,
        archive-archived fs v.1 (append o (entry_of name p empty)) ds
            (append-IsWithout fs name p o new w),
        append-entry_of o name p (archived fs v.1),
      )
