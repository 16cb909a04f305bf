-- ===== src/Concurrency/ReentrantSpinLock.antt =====
-- core/portal/core/concurrency/reentrant_spin_lock.h: a lock that its owner may take again.
-- The calls are cut at each access to a member that threads share, so that those of other threads come
-- between. A thread is known to the lock by the hash of its identifier, which is given, as is the number
-- `m` of values of the type of `ref_count`. The model has no weak memory: accesses are in one order.
pub mod History
pub mod Good
mod Tests
use portal_framework.Base.{ℕ, ◌+◌, ◌-◌, ◌%◌, Bool, true, false, ◌==◌, if◌then◌else◌}

pub record ReentrantSpinLock : Type 0 where
  pub locked_thread : ℕ
  pub ref_count : ℕ

-- `ReentrantSpinLock()`
abbrev pub create : ReentrantSpinLock
create = record { locked_thread = 0; ref_count = 0 }

-- Which of the two calls takes the lock.
pub data Call : Type 0 where
  try_lock lock : Call

-- Where a thread is: in no call; in `try_lock` or `lock`, before the load or before the exchange, and, as
-- the owner, before `++ref_count` reads and before it writes; in `unlock`, before the load and the
-- assertion, before `--ref_count` reads and before it writes, before the comparison with 0, and before
-- the store; behind an assertion that has failed.
pub data Phase : Type 0 where
  outside : Phase
  loading exchanging : Call → Phase
  counting : Phase
  storing : ℕ → Phase
  asserting lowering : Phase
  storing_lower : ℕ → Phase
  comparing releasing failed : Phase

-- When the exchange fails, `try_lock` returns, and `lock` tries again. That the weak exchange of `lock`
-- may fail without a reason is a thread that waits.
abbrev pub refused : Call → Phase
refused try_lock = outside
refused lock = exchanging lock

-- One access of the thread whose hash is `thread_id`.
unfoldable pub advance : ℕ → ℕ → Phase → ReentrantSpinLock → Phase × ReentrantSpinLock
advance m thread_id outside s = (outside, s)
advance m thread_id (loading call) s =
    if s.locked_thread == thread_id then (counting, s) else (exchanging call, s)
advance m thread_id (exchanging call) s =
    if s.locked_thread == 0
    then (counting, record s { locked_thread = thread_id })
    else (refused call, s)
advance m thread_id counting s = (storing ((s.ref_count + 1) % m), s)
advance m thread_id (storing n) s = (outside, record s { ref_count = n })
advance m thread_id asserting s =
    if s.locked_thread == thread_id then (lowering, s) else (failed, s)
advance m thread_id lowering s = (storing_lower ((s.ref_count + m - 1) % m), s)
advance m thread_id (storing_lower n) s = (comparing, record s { ref_count = n })
advance m thread_id comparing s = if s.ref_count == 0 then (releasing, s) else (outside, s)
advance m thread_id releasing s = (outside, record s { locked_thread = 0 })
advance m thread_id failed s = (failed, s)
