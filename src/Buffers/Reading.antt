-- ===== src/Buffers/Reading.antt =====
-- What is written to a buffer, the reader of the buffer gives in the same pieces.
use portal_framework.Base.{
  ◌⊎◌, ℕ, ◌≤◌, ◌+◌, ◌-◌, ◌^◌, ◌<◌, min, ◌≡◌, refl, sym, ap, ◌∙◌, subst, false, List, [], ◌∷◌, ◌++◌,
  length, length-append, Result, ok, ◌==◌, arith, ◌>>=◌, map,
}
use mathlib.Core.List.{append_assoc}
use portal_framework.Serialization.Binary.Bytes.{append-nil, take-append, drop-append}
use portal_framework.Serialization.Values.{concat}
use portal_framework.Buffers.{
  Memory, is_borrowed, BufferStreamWriter, BufferStreamReader, create, get_buffer, open_buffer,
  xsgetn, xsputn, put,
}
use portal_framework.Buffers.Writing.{
  HasWritten, create-HasWritten, xsputn-HasWritten, put-HasWritten, bump-small,
}

-- A write of some bytes at once, or of one byte.
pub data Write : Type 0 where
  bytes : List ℕ → Write
  byte : ℕ → Write

abbrev pub written : Write → List ℕ
written (bytes s) = s
written (byte ch) = ch ∷ []

module _ (garbage : ℕ → ℕ) where
  abbrev pub write_one : Write → BufferStreamWriter → Result BufferStreamWriter
  write_one (bytes s) w = xsputn garbage s w
  write_one (byte ch) w = put garbage ch w

  abbrev pub write_all : List Write → BufferStreamWriter → Result BufferStreamWriter
  write_all [] w = ok w
  write_all (x ∷ xs) w = write_one x w >>= write_all xs

  module _ (total : ℕ) (small : total < 2 ^ 31) where
    write_one-HasWritten :
        (x : Write) (w : BufferStreamWriter) (out : List ℕ)
        → HasWritten total w out
        → length out + length (written x) ≤ total
        → (w' : BufferStreamWriter) × ((write_one x w ≡ ok w')
            × HasWritten total w' (out ++ written x))
    write_one-HasWritten (bytes s) w out h le = xsputn-HasWritten garbage total small s w out h le
    write_one-HasWritten (byte ch) w out h le = put-HasWritten garbage total small ch w out h le

    write_all-HasWritten :
        (xs : List Write) (w : BufferStreamWriter) (out : List ℕ)
        → HasWritten total w out
        → length out + length (concat (map written xs)) ≤ total
        → (w' : BufferStreamWriter) × ((write_all xs w ≡ ok w')
            × HasWritten total w' (out ++ concat (map written xs)))
    write_all-HasWritten [] w out h le =
        (w, (refl, subst (λ o. HasWritten total w o) (sym (append-nil out)) h))
    write_all-HasWritten (x ∷ xs) w out h le =
        let rest : List ℕ = concat (map written xs) in
        let all : length (written x ++ rest) ≡ length (written x) + length rest =
          length-append (written x) rest in
        let (w1, (e1, h1)) = write_one-HasWritten x w out h (omega arith) in
        let sum : length (out ++ written x) ≡ length out + length (written x) =
          length-append out (written x) in
        let (w2, (e2, h2)) = write_all-HasWritten xs w1 (out ++ written x) h1 (omega arith) in
        (w2, (rw e1 e2, subst (λ o. HasWritten total w2 o) (append_assoc out (written x) rest) h2))

-- The pieces that reads of these sizes give.
abbrev pub read_all : List ℕ → BufferStreamReader → Result (List (List ℕ))
read_all [] r = ok []
read_all (n ∷ ns) r = do (piece, r') ← xsgetn n r; pieces ← read_all ns r'; ok (piece ∷ pieces)

abbrev after : List ℕ → List ℕ → BufferStreamReader
after before rest = record {
  buffer = before ++ rest;
  get_pointer = length before;
  position = length before;
}

xsgetn-after :
    (before piece rest : List ℕ)
    → length piece < 2 ^ 31
    → xsgetn (length piece) (after before (piece ++ rest))
      ≡ ok (piece, after (before ++ piece) rest)
unfolding xsgetn
xsgetn-after before [] rest lt =
    let none_left : min 0 (length (before ++ rest) - length before) ≡ 0 = omega arith in
    rw (none_left, append-nil before)
xsgetn-after before (b ∷ bs) rest lt =
    let piece : List ℕ = b ∷ bs in
    let size : length (before ++ (piece ++ rest)) ≡ length before + (length piece + length rest) =
      length-append before (piece ++ rest)
      ∙ ap (λ n. length before + n) (length-append piece rest) in
    let all : min (length piece) (length (before ++ (piece ++ rest)) - length before)
        ≡ length piece =
      omega arith in
    let some_left : (length piece == 0) ≡ false = ground arith in
    rw (
      all,
      some_left,
      bump-small (length piece) (length before) lt,
      drop-append before (piece ++ rest),
      take-append piece rest,
      append_assoc before piece rest,
      length-append before piece,
    )

read_all-pieces :
    (before : List ℕ) (pieces : List (List ℕ))
    → length (concat pieces) < 2 ^ 31
    → read_all (map length pieces) (after before (concat pieces)) ≡ ok pieces
read_all-pieces before [] lt = refl
read_all-pieces before (piece ∷ pieces) lt =
    let all : length (piece ++ concat pieces) ≡ length piece + length (concat pieces) =
      length-append piece (concat pieces) in
    rw (
      xsgetn-after before piece (concat pieces) (omega arith),
      read_all-pieces (before ++ piece) pieces (omega arith),
    )

-- Writes of less than 2^31 bytes in all succeed, whether they write a byte or several, on a buffer of
-- any size that owns its memory or has none, and on one that does not own its memory if that has room
-- for all of them; and the buffer that they leave is read back in the pieces that were written.
pub read_all-write_all :
    (garbage : ℕ → ℕ) (memory : Memory) (initial : List ℕ) (xs : List Write)
    → length (concat (map written xs)) < 2 ^ 31
    → (is_borrowed memory ≡ false) ⊎ (length (concat (map written xs)) ≤ length initial)
    → (w : BufferStreamWriter) × ((write_all garbage xs (create memory initial) ≡ ok w)
        × ((get_buffer w ≡ concat (map written xs))
            × (read_all (map length (map written xs)) (open_buffer (get_buffer w))
                ≡ ok (map written xs))))
read_all-write_all garbage memory initial xs lt free =
    let total : ℕ = length (concat (map written xs)) in
    let (w, (e, h)) =
      write_all-HasWritten garbage total lt xs (create memory initial) []
        (create-HasWritten total memory initial free) (omega arith) in
    (w, (e, (h.content, rw h.content (read_all-pieces [] (map written xs) lt))))

-- The bytes that a `read` gives, without the reader that it leaves.
abbrev pub read_bytes : ℕ → BufferStreamReader → Result (List ℕ)
read_bytes n r = xsgetn n r >>= λ q. ok q.0
