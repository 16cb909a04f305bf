-- ===== src/Buffers.antt =====
-- core/portal/core/buffer.h and buffer_stream.cpp: the contents of a `Buffer`, and the streams that
-- write and read one. A buffer is the list of its bytes; those that nothing has been written to are
-- taken from a parameter. Sizes stay below 2^64; `pbump` and `gbump` take an `int` of 32 bits.
pub mod Writing
pub mod Reading
mod Tests
use portal_framework.Base.{
  ℕ, zero, suc, ◌+◌, ◌-◌, ◌/◌, ◌%◌, ◌^◌, min, max, Bool, true, false, Option, none, some, List, [],
  ◌∷◌, ◌++◌, length, take, drop, get_elem?, Result, ok, err, Error, ltb, ◌==◌, if◌then◌else◌, ◌>>=◌,
}

-- Bytes that nothing has been written to.
abbrev pub fill : (ℕ → ℕ) → ℕ → List ℕ
fill garbage zero = []
fill garbage (suc n) = garbage n ∷ fill garbage n

-- Where the bytes of a buffer lie: `data` is null, is not `allocated`, or is.
pub data Memory : Type 0 where
  no_memory borrowed owned : Memory

abbrev pub is_borrowed : Memory → Bool
is_borrowed borrowed = true
is_borrowed m = false

-- The memory that `Buffer::allocate` gives.
abbrev pub allocated : ℕ → Memory
allocated zero = no_memory
allocated (suc n) = owned

-- `Buffer::resize`, whose `release` deletes the old bytes, also where the buffer does not own them:
-- that is an access that nothing defines.
unfoldable pub resize : (ℕ → ℕ) → ℕ → Memory → List ℕ → Result (Memory × List ℕ)
resize garbage new_size memory buffer =
    if new_size == length buffer
    then ok (memory, buffer)
    else if is_borrowed memory
    then err Error.undefined_access
    else ok (allocated new_size, take new_size buffer ++ fill garbage (new_size - length buffer))

-- A pointer, as an index, that is moved by a number that was cast to `int`.
unfoldable pub bump : ℕ → ℕ → Result ℕ
bump n position =
    let k : ℕ = n % 2 ^ 32 in
    if ltb k (2 ^ 31)
    then ok (position + k)
    else if ltb position (2 ^ 32 - k)
    then err Error.undefined_access
    else ok (position - (2 ^ 32 - k))

-- `memcpy` to an index of a buffer.
unfoldable pub copy_to : ℕ → List ℕ → List ℕ → Result (List ℕ)
copy_to position bytes buffer =
    if ltb (length buffer) (position + length bytes)
    then err Error.undefined_access
    else ok (take position buffer ++ bytes ++ drop (position + length bytes) buffer)

-- The offset of a seek, and where it starts.
pub data Offset : Type 0 where
  forward backward : ℕ → Offset

pub data Direction : Type 0 where
  beg cur end : Direction

-- The position that an offset leads to, if it is in the buffer.
abbrev target : ℕ → ℕ → Offset → Option ℕ
target size base (forward n) = if ltb size (base + n) then none else some (base + n)
target size base (backward n) =
    if ltb base n then none else if ltb size (base - n) then none else some (base - n)

-- `position` is where the put pointer stands; the end of the put area is the end of the buffer.
pub record BufferStreamWriter : Type 0 where
  pub memory : Memory
  pub buffer : List ℕ
  pub position : ℕ

abbrev pub initial_capacity : ℕ
initial_capacity = 1024

abbrev pub create : Memory → List ℕ → BufferStreamWriter
create memory buffer = record { memory = memory; buffer = buffer; position = 0 }

abbrev pub get_buffer : BufferStreamWriter → List ℕ
get_buffer w = take w.position w.buffer

-- The size that `grow` chooses.
abbrev pub grown_size : ℕ → ℕ → ℕ
grown_size min_capacity size =
    if size == 0 then max min_capacity initial_capacity else max min_capacity (size + size / 2)

-- Bytes at the put pointer, which moves behind them.
unfoldable pub place : List ℕ → BufferStreamWriter → Result BufferStreamWriter
place s w = do
  buffer ← copy_to w.position s w.buffer
  position ← bump (length s) w.position
  ok (record w { buffer = buffer; position = position })

module _ (garbage : ℕ → ℕ) where
  unfoldable pub grow : ℕ → BufferStreamWriter → Result BufferStreamWriter
  grow min_capacity w = do
    let new_size = grown_size min_capacity (length w.buffer)
    (memory, buffer) ← resize garbage new_size w.memory w.buffer
    position ← bump w.position 0
    ok (record { memory = memory; buffer = buffer; position = position })

  unfoldable pub overflow : Option ℕ → BufferStreamWriter → Result BufferStreamWriter
  overflow none w = ok w
  overflow (some ch) w = grow (w.position + 1) w >>= place (ch ∷ [])

  unfoldable pub xsputn : List ℕ → BufferStreamWriter → Result BufferStreamWriter
  xsputn s w = do
    let required_size = w.position + length s
    w' ← (if ltb (length w.buffer) required_size then grow required_size w else ok w)
    place s w'

  -- `put` of the stream: `overflow` at the end of the put area.
  unfoldable pub put : ℕ → BufferStreamWriter → Result BufferStreamWriter
  put ch w = if ltb w.position (length w.buffer) then place (ch ∷ []) w else overflow (some ch) w

-- `seekoff` of the writer, with the flag for output: `end` is the current position, too.
unfoldable pub seek_put :
    Bool → Direction → Offset → BufferStreamWriter → Result (Option ℕ × BufferStreamWriter)
seek_put false dir off w = ok (none, w)
seek_put true dir off w = move (target (length w.buffer) (base dir) off)
  where
    base : Direction → ℕ
    base beg = 0
    base cur = w.position
    base end = w.position

    move : Option ℕ → Result (Option ℕ × BufferStreamWriter)
    move none = ok (none, w)
    move (some new_pos) = bump new_pos 0 >>= λ p. ok (some new_pos, record w { position = p })

-- The get pointer, and the position that the reader counts besides it.
pub record BufferStreamReader : Type 0 where
  pub buffer : List ℕ
  pub get_pointer : ℕ
  pub position : ℕ

abbrev pub open_buffer : List ℕ → BufferStreamReader
open_buffer buffer = record { buffer = buffer; get_pointer = 0; position = 0 }

-- The bytes that are read, and the reader after them.
unfoldable pub xsgetn : ℕ → BufferStreamReader → Result (List ℕ × BufferStreamReader)
xsgetn n r = do
  let to_read = min n (length r.buffer - r.position)
  if to_read == 0
      then ok ([], r)
      else (bump to_read r.get_pointer >>= λ p. ok (
        take to_read (drop r.position r.buffer),
        record r { position = r.position + to_read; get_pointer = p },
      ))

-- `get` of the stream, which moves the get pointer alone.
unfoldable pub get : BufferStreamReader → Option ℕ × BufferStreamReader
get r =
    if ltb r.get_pointer (length r.buffer)
    then (get_elem? r.buffer r.get_pointer, record r { get_pointer = r.get_pointer + 1 })
    else (none, r)

-- `seekoff` of the reader, with the flag for input.
unfoldable pub seek_get :
    Bool → Direction → Offset → BufferStreamReader → Option ℕ × BufferStreamReader
seek_get false dir off r = (none, r)
seek_get true dir off r = move (target (length r.buffer) (base dir) off)
  where
    base : Direction → ℕ
    base beg = 0
    base cur = r.position
    base end = length r.buffer

    move : Option ℕ → Option ℕ × BufferStreamReader
    move none = (none, r)
    move (some new_pos) = (some new_pos, record r { position = new_pos; get_pointer = new_pos })
