-- ===== src/Memory/PoolAllocator.antt =====
-- core/portal/core/memory/pool_allocator.h: pools of equal slots with the list of free slots kept in
-- the slots themselves.
-- A pointer is its offset from `pool.data()`, `none` the null pointer. Of a slot the model keeps the
-- first word, read as a pointer: what the list of free slots reads and writes. `b` is the size of a
-- slot (`sizeof(T)`, `bucket_size`), `c` the number of slots; every call holds the lock, so calls
-- are atomic.
pub mod FreeList
pub mod History
pub mod Ownership
pub mod Bucket
mod Tests
use portal_framework.Base.{
  ℕ, zero, suc, ◌+◌, ◌*◌, Bool, true, false, Option, none, some, Result, ok, err, Error, ltb, ◌==◌,
  if◌then◌else◌,
}

pub record Pool : Type 0 where
  pub cell : ℕ → Option ℕ
  pub head : Option ℕ
  pub full : Bool

-- The members as they are initialised: `pool` is zeroed, `head` is null.
abbrev pub zeroed : Pool
zeroed = record { cell = λ p. none; head = none; full = false }

-- `*reinterpret_cast<void**>(p) = v`
abbrev pub store : ℕ → Option ℕ → (ℕ → Option ℕ) → ℕ → Option ℕ
store p v cell q = if p == q then v else cell q

module _ (b c : ℕ) where
  abbrev pub pool_size : ℕ
  pool_size = c * b

  -- The body of the loop of `clear`, at offset `i`: the null pointer that the last slot is given is
  -- overwritten at once.
  unfoldable pub link_slot : ℕ → (ℕ → Option ℕ) → ℕ → Option ℕ
  link_slot i cell =
      let cell' = if i + b == pool_size then store i none cell else cell in
      store i (some (i + b)) cell'

  -- The loop of `clear` from offset `i`, on fuel.
  unfoldable pub link_slots : ℕ → ℕ → (ℕ → Option ℕ) → ℕ → Option ℕ
  unfolding link_slot
  link_slots zero i cell = cell
  link_slots (suc fuel) i cell =
      let rest = link_slots fuel (i + b) (link_slot i cell) in
      if ltb i pool_size then rest else cell

  -- `clear()`. The offset grows by `b` in each round, so `c` rounds are enough.
  unfoldable pub clear : Pool → Pool
  unfolding link_slots
  clear s = record { cell = link_slots c 0 s.cell; head = some 0; full = false }

  -- `PoolAllocator()`
  unfoldable pub create : Pool
  unfolding clear
  create = clear zeroed

  -- What `alloc` does before it constructs the object: the slot, and the pool after the call.
  unfoldable pub take_slot : Pool → Result (ℕ × Pool)
  take_slot s = if s.full then err Error.bad_alloc else elim s.head [
    | none ↦ err Error.undefined_access
    | some p ↦ ok (
      p,
      record s {
        head = s.cell p;
        full = elim (s.cell p) [ none ↦ s.full | some q ↦ if q == pool_size then true else s.full ];
      },
    )
  ]

  -- `alloc(args...)`: the object that is constructed leaves `word` at the start of its slot.
  unfoldable pub alloc : Option ℕ → Pool → Result (ℕ × Pool)
  unfolding take_slot
  alloc word s = elim (take_slot s) [
    | ok (p, t) ↦ ok (p, record t { cell = store p word t.cell })
    | err e ↦ err e
  ]

-- `free(p)`: what the destructor of T leaves in the slot is overwritten.
unfoldable pub free : Option ℕ → Pool → Pool
free none s = s
free (some p) s = record { cell = store p s.head s.cell; head = some p; full = false }
