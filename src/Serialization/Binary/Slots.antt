-- ===== src/Serialization/Binary/Slots.antt =====
-- Reserved slots: a value that is written later stands where it would have been written at once.
use portal_framework.Base.{
  ℕ, ◌+◌, ◌≡◌, sym, ap, ◌∙◌, List, ◌++◌, length, length-append, length-replicate, replicate,
}
use mathlib.Core.List.{append_assoc}
use portal_framework.Serialization.Property.{Property}
use portal_framework.Serialization.Binary.{
  BinarySerializationParams, metadata, add_property, reserve_slot, write_at,
}
use portal_framework.Serialization.Binary.Bytes.{take-append, drop-append}

-- Writing a value of the reserved size into a slot, after any more bytes have been written, leaves
-- the stream that `add_property` with that value would have given.
pub write_at-reserve_slot :
    (params : BinarySerializationParams) (p : Property) (output later : List ℕ)
    → let (position, reserved) = reserve_slot params (length p.value) p output in
      write_at position p.value (reserved ++ later) ≡ add_property params p output ++ later
unfolding write_at reserve_slot add_property
write_at-reserve_slot params p output later =
    let start = output ++ metadata params p in
    let zeros : List ℕ = replicate (length p.value) 0 in
    let size : length (start ++ zeros) ≡ length start + length p.value =
      length-append start zeros
      ∙ ap (λ n. length start + n) (length-replicate (length p.value) 0) in
    rw (
      sym size,
      drop-append (start ++ zeros) later,
      append_assoc start zeros later,
      take-append start (zeros ++ later),
      sym (append_assoc start p.value later),
      append_assoc output (metadata params p) p.value,
    )
