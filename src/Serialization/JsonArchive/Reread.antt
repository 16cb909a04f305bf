-- ===== src/Serialization/JsonArchive/Reread.antt =====
-- The archive that `deserialize` makes of the document of an archive.
use portal_framework.Base.{ℕ, ◌≡◌, ap, ◌∙◌, Bool, false, none, some, [], ok}
use portal_framework.Base.Ordered.{Each-map}
use portal_framework.Serialization.Archive.{
  ArchiveObject, empty, contains, Shape, number, text, vec, matrix, array, object, vector_of,
  optional, Fields, no_fields, field, Value, FieldValues, get_property_type, object_property,
}
use portal_framework.Serialization.Archive.Reading.{Floats}
use portal_framework.Serialization.Archive.Stored.{
  append, entry_of, stored, IsDistinct, AreDistinct, IsWithout, empty-IsWithout, append-IsWithout,
  append-entry_of, append-empty, add_property_to_map-new, add_property-stored,
}
use portal_framework.Serialization.JsonArchive.{JsonLibrary}
use portal_framework.Serialization.JsonArchive.Deserialize.{
  deserialize_scalar, deserialize_object, deserialize_members,
}
use portal_framework.Serialization.JsonArchive.Written.{
  json_of, json_members, reread, reread_fields, numbers, texts, IsStorable, AreStorable,
}
use portal_framework.Serialization.JsonArchive.Grown.{
  IsDocumented, grown, settle-none, deserialize_members-member_of, number-grown, array-grown,
  packed-grown, element-IsArithmetic, texts_or_empty-grown, vector_of-grown, deserialize_option,
}

module _ (floats : Floats) (json : JsonLibrary) (doc : IsDocumented json) where
  -- The archive that is read of a document.
  mutual
    unfolding deserialize_object deserialize_scalar json_of reread IsStorable IsDistinct
        get_property_type stored

    deserialize_option-reread :
        (top : Bool) (s : Shape) (v : Value s) (name : ℕ) (root : ArchiveObject)
        → IsDistinct s
        → IsStorable floats top s v
        → contains name root ≡ false
        → deserialize_option floats json doc top name (json_of floats s v) root
          ≡ grown name (reread floats s v) root
    deserialize_option-reread top (number t) v name root d h e =
        number-grown floats json doc top t v name root h e
    deserialize_option-reread top text v name root d h e =
        rw (add_property-stored text name v root tt e)
    deserialize_option-reread top (vec t n) v name root d h e =
        packed-grown floats json doc top t n v name root h e
    deserialize_option-reread top (matrix t n) v name root d h e =
        packed-grown floats json doc top t n v name root h e
    deserialize_option-reread top (array _) v name root d (numbers {t = t} a f h) e =
        let (a', ne) = element-IsArithmetic floats json doc t a in
        array-grown floats json doc top _ v name root a' ne f e
    deserialize_option-reread top (array _) v name root d (texts f) e =
        texts_or_empty-grown floats json doc top v name root f e
    deserialize_option-reread top (object fs) v name root (_, d) h e = rw (
      deserialize_members-reread_fields false fs v empty d h (empty-IsWithout fs),
      add_property_to_map-new name (object_property (reread_fields floats fs v)) root e,
      settle-none top _,
    )
    deserialize_option-reread top (vector_of fs) v name root d (full, h) e =
        let each =
          Each-map v
            (λ x g. deserialize_members-reread_fields false fs x empty d g (empty-IsWithout fs))
            h in
        vector_of-grown floats json doc top (json_members floats fs) (reread_fields floats fs) v
          name root each full e
    deserialize_option-reread top (optional s) none name root d h e = rw (append-empty root)
    deserialize_option-reread top (optional s) (some v) name root d h e =
        deserialize_option-reread top s v name root d h e

    pub deserialize_members-reread_fields :
        (top : Bool) (fs : Fields) (v : FieldValues fs) (root : ArchiveObject)
        → AreDistinct fs
        → AreStorable floats top fs v
        → IsWithout fs root
        → deserialize_members json top (json_members floats fs v) root
          ≡ ok (append root (reread_fields floats fs v), [])
    deserialize_members-reread_fields top no_fields v root d h w = rw (append-empty root)
    deserialize_members-reread_fields top (field name s fs) v root (new, (d, ds)) (h, hs) (e, w) =
        let p = reread floats s v.0 in
        let rest =
          deserialize_members-reread_fields top fs v.1 (append root (entry_of name p empty)) ds hs
            (append-IsWithout fs name p root new w) in
        deserialize_members-member_of floats json doc top name (json_of floats s v.0)
          (json_members floats fs v.1) root (deserialize_option-reread top s v.0 name root d h e)
          (rest ∙ ap (λ o. ok (o, [])) (append-entry_of root name p (reread_fields floats fs v.1)))
