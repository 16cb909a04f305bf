-- ===== src/Jobs/WakeSignal.antt =====
-- core/portal/core/jobs/scheduler.cpp and scheduler.h: `wait_for_counter` and the wake signal.
-- The loop of a waiting thread is cut at its atomic operations, so that the operations of other
-- threads come between them in any order. The counter of waiter `i` has the number `i`. What a round
-- of the worker loop finds is given: see Jobs.Scheduler for the rounds.
pub mod OneWaiter
pub mod TwoWaiters
mod Tests
use portal_framework.Base.{ℕ, ◌+◌, ◌-◌, ◌<◌, ◌≡◌, Bool, true, false, ◌==◌, if◌then◌else◌}

-- Where a waiter is: at the test of the loop; behind a round that found no job; behind
-- `test_and_set`; at the test of the flag in `wait(true)`; blocked there; before `clear`; done.
pub data Phase : Type 0 where
  testing found_none rechecking comparing blocked clearing returned : Phase

-- `wake_signal`, the counters, and the signals that are on their way: threads that have lowered a
-- counter or suspended a job and have not yet cleared the flag, and those that have cleared it and
-- have not yet notified.
pub record Waiting : Type 0 where
  pub wake_signal : Bool
  pub counts : ℕ → ℕ
  pub phase : ℕ → Phase
  pub clears : ℕ
  pub notifies : ℕ

abbrev pub update {ℓ} : {A : Type ℓ} → (ℕ → A) → ℕ → A → ℕ → A
update f i a j = if i == j then a else f j

-- The next phase of a waiter whose counter is `count`, and the flag. `empty` tells whether the round
-- that the waiter makes finds no job. A thread that is blocked stays so.
unfoldable pub next_phase : Phase → Bool → ℕ → Bool → Phase × Bool
next_phase testing empty count flag =
    if count == 0 then (returned, flag) else if empty then (found_none, flag) else (testing, flag)
next_phase found_none empty count flag = (rechecking, true)
next_phase rechecking empty count flag = if count == 0 then (clearing, flag) else (comparing, flag)
next_phase comparing empty count flag = if flag then (blocked, flag) else (testing, flag)
next_phase blocked empty count flag = (blocked, flag)
next_phase clearing empty count flag = (testing, false)
next_phase returned empty count flag = (returned, flag)

-- One step of waiter `i` in `wait_for_counter(counter)`.
unfoldable pub advance : Bool → ℕ → Waiting → Waiting
unfolding next_phase
advance empty i s =
    let (p, flag) = next_phase (s.phase i) empty (s.counts i) s.wake_signal in
    record s { phase = update s.phase i p; wake_signal = flag }

-- `FinalizeJob` lowers the counter, and is to signal; `SuspendJob` is to signal.
unfoldable pub finalize : ℕ → Waiting → Waiting
finalize k s = record s { counts = update s.counts k (s.counts k - 1); clears = s.clears + 1 }

unfoldable pub suspend : Waiting → Waiting
suspend s = record s { clears = s.clears + 1 }

-- `dispatch_jobs` raises the counter, which has no bound here: in the source it wraps at 2^64 jobs.
unfoldable pub dispatch : ℕ → ℕ → Waiting → Waiting
dispatch k n s = record s { counts = update s.counts k (s.counts k + n) }

-- The two halves of `signal_wake()`.
unfoldable pub clear : Waiting → Waiting
clear s = record s { wake_signal = false; clears = s.clears - 1; notifies = s.notifies + 1 }

abbrev pub woken : Phase → Phase
woken blocked = comparing
woken p = p

unfoldable pub notify_all : Waiting → Waiting
notify_all s = record s { phase = λ i. woken (s.phase i); notifies = s.notifies - 1 }

-- The steps of a system with `n` waiters, the spurious wakes of `wait` included.
pub data Step (n : ℕ) (s : Waiting) : Waiting → Type 0 where
  waits : (empty : Bool) (i : ℕ) → i < n → Step n s (advance empty i s)
  finalizes : (k : ℕ) → 0 < s.counts k → Step n s (finalize k s)
  suspends : Step n s (suspend s)
  dispatches : (k jobs : ℕ) → Step n s (dispatch k jobs s)
  clears : 0 < s.clears → Step n s (clear s)
  notifies : 0 < s.notifies → Step n s (notify_all s)
  wakes : (i : ℕ) → s.phase i ≡ blocked → Step n s (record s { phase = update s.phase i comparing })

pub data Reach (n : ℕ) (s : Waiting) : Waiting → Type 0 where
  here : Reach n s s
  next : {t u : Waiting} → Reach n s t → Step n t u → Reach n s u

-- Threads that enter `wait_for_counter`.
abbrev pub start : (ℕ → ℕ) → Bool → Waiting
start counts flag = record {
  wake_signal = flag;
  counts = counts;
  phase = λ i. testing;
  clears = 0;
  notifies = 0;
}
