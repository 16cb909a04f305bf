-- ===== src/Serialization/Archive/Blobs.antt =====
-- serialization/portal/serialization/archive.h: blocks of raw bytes.
use portal_framework.Base.{ℕ, Bool, true, List, length, Result, ok, err, Error, ◌&&◌, if◌then◌else◌}
use portal_framework.Serialization.Property.{PropertyType, PropertyContainerType}
use portal_framework.Serialization.Archive.{
  ArchiveObject, ArchiveProperty, property, Contents, bytes, objects, is_invalid,
  get_property_from_map, add_property_to_map,
}
use portal_framework.Serialization.Archive.Reading.{same_type, is_container, missing}

-- `add_binary_block`
unfoldable pub add_binary_block : ℕ → List ℕ → ArchiveObject → Result ArchiveObject
add_binary_block name b o =
    add_property_to_map name
      (property (bytes b) PropertyType.binary PropertyContainerType.array (length b)) o

-- `get_binary_block`, whose out parameter starts with given bytes.
unfoldable pub get_binary_block : ℕ → List ℕ → ArchiveObject → Result (Bool × List ℕ)
get_binary_block name out o = copy (get_property_from_map name o)
  where
    copy : ArchiveProperty → Result (Bool × List ℕ)
    copy (property value u c n) =
        if is_invalid u
        then missing out
        else if same_type u PropertyType.binary && is_container c PropertyContainerType.array
        then content value
        else err Error.assertion_failed
      where
        content : Contents → Result (Bool × List ℕ)
        content (bytes b) = ok (true, b)
        content (objects os) = err Error.undefined_access
