-- ===== src/Memory.antt =====
-- core/portal/core/memory: the allocators.
pub mod StackAllocator
pub mod BufferedAllocator
pub mod PoolAllocator
