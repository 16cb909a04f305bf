-- ===== src/Memory/BufferedAllocator/Tests.antt =====
-- Three buffers in turn, and the theorems at concrete inputs.
use portal_framework.Base.{◌≡◌, refl, List, [], ◌∷◌, arith, err, Error}
use portal_framework.Memory.StackAllocator
use portal_framework.Memory.StackAllocator.{StackAllocator}
use portal_framework.Memory.BufferedAllocator.{BufferedAllocator, swap_buffers, get_allocator}
use portal_framework.Memory.BufferedAllocator.Frames
use portal_framework.Memory.BufferedAllocator.Frames.{
  Call, allocate, wipe, frames, frames-keep, frames-return,
}

abbrev used : StackAllocator
used = record { size = 64; top = 8; allocations = (0, 8) ∷ [] }

abbrev triple : BufferedAllocator
triple = record { stack_index = 2; allocators = λ i. used }

abbrev two_frames : List (List Call)
two_frames = (allocate 16 ∷ wipe ∷ allocate 4 ∷ []) ∷ (wipe ∷ allocate 100 ∷ []) ∷ []

frames-two : (frames 3 two_frames triple).stack_index ≡ 1
unfolding frames Frames.calls Frames.call swap_buffers StackAllocator.alloc StackAllocator.clear
frames-two = refl

get_allocator-out_of_range : get_allocator 3 3 triple ≡ err Error.out_of_range
unfolding get_allocator
get_allocator-out_of_range = refl

frames-return-triple : (swap_buffers 3 (frames 3 two_frames triple)).stack_index ≡ 2
frames-return-triple = (frames-return 3 two_frames triple (omega arith) (omega arith)).0
