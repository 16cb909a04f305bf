-- ===== src/Buffers/Tests.antt =====
-- Streams over small buffers, and the theorems applied to them.
use portal_framework.Base.{inl, refl, ℕ, ◌≡◌, List, [], ◌∷◌, map, length, ok, arith}
use portal_framework.Buffers.{owned, get_buffer, open_buffer, BufferStreamReader}
use portal_framework.Buffers.Reading.{Write, bytes, byte, written, read_all, read_all-write_all}

abbrev garbage : ℕ → ℕ
garbage n = 205

abbrev writes : List Write
writes = bytes (1 ∷ 2 ∷ 3 ∷ []) ∷ byte 4 ∷ bytes [] ∷ bytes (5 ∷ 6 ∷ []) ∷ []

read_all-write_all_example :
    read_all (map length (map written writes)) (
      open_buffer (
        get_buffer
          (read_all-write_all garbage owned (0 ∷ 0 ∷ []) writes (omega arith) (inl refl)).0))
    ≡ ok (map written writes)
read_all-write_all_example =
    (read_all-write_all garbage owned (0 ∷ 0 ∷ []) writes (omega arith) (inl refl)).1.1.1

-- A reader that has read one byte, and then got it once more.
abbrev reader : BufferStreamReader
reader = record { buffer = 7 ∷ 8 ∷ 9 ∷ []; get_pointer = 1; position = 1 }
