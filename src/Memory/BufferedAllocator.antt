-- ===== src/Memory/BufferedAllocator.antt =====
-- core/portal/core/memory/stack_allocator.h: `BufferedAllocator<N>`, N bump allocators used in turn.
-- `std::array<StackAllocator, N>` is a function, read only below N.
pub mod Frames
mod Tests
use portal_framework.Base.{
  ℕ, ◌+◌, ◌%◌, Option, none, some, List, [], ◌∷◌, Result, ok, err, Error, ltb, ◌==◌, ◌>>=◌,
  if◌then◌else◌,
}
use portal_framework.Memory.StackAllocator.{StackAllocator}
use portal_framework.Memory.StackAllocator

pub record BufferedAllocator : Type 0 where
  pub stack_index : ℕ
  pub allocators : ℕ → StackAllocator

abbrev pub update {ℓ} : {A : Type ℓ} → (ℕ → A) → ℕ → A → ℕ → A
update f i a j = if i == j then a else f j

-- The allocator in use, which the calls below replace by what the call on it leaves.
abbrev pub current : BufferedAllocator → StackAllocator
current b = b.allocators b.stack_index

abbrev pub with_current : BufferedAllocator → StackAllocator → BufferedAllocator
with_current b s = record b { allocators = update b.allocators b.stack_index s }

-- `BufferedAllocator(buffer_size)`: the loop resizes every allocator.
unfoldable pub create : ℕ → BufferedAllocator
unfolding StackAllocator.create_default StackAllocator.resize
create buffer_size = record {
  stack_index = 0;
  allocators = λ i. StackAllocator.resize buffer_size StackAllocator.create_default;
}

-- `swap_buffers()`, with the template's N.
unfoldable pub swap_buffers : ℕ → BufferedAllocator → BufferedAllocator
swap_buffers n b =
    let i = (b.stack_index + 1) % n in
    record {
      stack_index = i;
      allocators = update b.allocators i (StackAllocator.clear (b.allocators i));
    }

unfoldable pub alloc : ℕ → BufferedAllocator → Result (ℕ × BufferedAllocator)
alloc size b = do (p, s) ← StackAllocator.alloc size (current b); ok (p, with_current b s)

unfoldable pub free : ℕ → BufferedAllocator → Result BufferedAllocator
free p b = do s ← StackAllocator.free p (current b); ok (with_current b s)

-- `free(T*)`
unfoldable pub free_object : Option ℕ → BufferedAllocator → Result BufferedAllocator
unfolding free
free_object none b = ok b
free_object (some p) b = free p b

-- `clear()`
unfoldable pub clear : BufferedAllocator → BufferedAllocator
clear b = with_current b (StackAllocator.clear (current b))

-- `clear(size_t)`, which ignores its argument.
unfoldable pub clear_at : ℕ → BufferedAllocator → BufferedAllocator
clear_at index b = with_current b (StackAllocator.clear (current b))

-- `get_allocator(index)`
unfoldable pub get_allocator : ℕ → ℕ → BufferedAllocator → Result StackAllocator
get_allocator n index b = if ltb index n then ok (b.allocators index) else err Error.out_of_range
