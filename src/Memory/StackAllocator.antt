-- ===== src/Memory/StackAllocator.antt =====
-- core/portal/core/memory/stack_allocator.h and stack_allocator.cpp: the bump allocator.
-- A pointer is its offset from `buffer.data()`; of the buffer only the size is kept, since the
-- allocator never reads or writes the bytes. `size_t` arithmetic wraps at 2 ^ 64.
pub mod Stacked
pub mod History
pub mod Misuse
mod Tests
use portal_framework.Base.{
  ℕ, ◌+◌, ◌-◌, ◌%◌, ◌^◌, Option, none, some, List, [], Result, ok, err, Error, ltb, ◌>>=◌,
  if◌then◌else◌,
}
use portal_framework.Base.Maps.{lookup, insert, erase}

pub record StackAllocator : Type 0 where
  pub size : ℕ
  pub top : ℕ
  pub allocations : List (ℕ × ℕ)

-- 2 ^ 64, the modulus of `size_t`.
abbrev pub size_mod : ℕ
size_mod = 2 ^ 64

abbrev pub default_size : ℕ
default_size = 1024

-- `StackAllocator(total_size)`
unfoldable pub create : ℕ → StackAllocator
create total_size = record { size = total_size; top = 0; allocations = [] }

-- `StackAllocator()`
unfoldable pub create_default : StackAllocator
unfolding create
create_default = create default_size

-- `alloc(size)`: the pointer, and the allocator after the call.
unfoldable pub alloc : ℕ → StackAllocator → Result (ℕ × StackAllocator)
alloc n s =
    if ltb s.size ((s.top + n) % size_mod)
    then err Error.bad_alloc
    else ok (
      s.top,
      record s { allocations = insert s.top n s.allocations; top = (s.top + n) % size_mod },
    )

-- `free(void*)`
unfoldable pub free : ℕ → StackAllocator → Result StackAllocator
free p s = elim (lookup p s.allocations) [
  | none ↦ err Error.invalid_argument
  | some n ↦
      ok (record s { allocations = erase p s.allocations; top = (s.top + size_mod - n) % size_mod })
]

-- `free(T*)`, which does nothing for the null pointer; the destructor of T does not touch the
-- allocator.
unfoldable pub free_object : Option ℕ → StackAllocator → Result StackAllocator
unfolding free
free_object none s = ok s
free_object (some p) s = free p s

unfoldable pub get_marker : StackAllocator → ℕ
get_marker s = s.top

unfoldable pub get_size : StackAllocator → ℕ
get_size s = s.size

unfoldable pub free_to_marker : ℕ → StackAllocator → StackAllocator
free_to_marker m s = record s { top = m }

unfoldable pub clear : StackAllocator → StackAllocator
clear s = record s { top = 0; allocations = [] }

unfoldable pub resize : ℕ → StackAllocator → StackAllocator
unfolding clear
resize new_size s = let cleared = clear s in record cleared { size = new_size }
