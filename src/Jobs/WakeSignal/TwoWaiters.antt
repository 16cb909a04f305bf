-- ===== src/Jobs/WakeSignal/TwoWaiters.antt =====
-- A second waiter can take the wake of the first away.
use portal_framework.Base.{ℕ, ◌<◌, ◌≡◌, refl, Bool, true, arith, ltb, if◌then◌else◌}
use portal_framework.Jobs.WakeSignal.{
  blocked, returned, Waiting, next_phase, advance, finalize, clear, notify_all, Step, Reach, start,
}

-- The counters of the waiters 0 and 1 have one job each.
abbrev pub one_job_each : (ℕ → ℕ) → ℕ → ℕ
one_job_each counts i = if ltb i 2 then 1 else counts i

-- No step of the history is a spurious wake of a blocked waiter.
abbrev pub IsCalm : {n : ℕ} {s t : Waiting} → Reach n s t → Type 0
IsCalm Reach.here = Unit
IsCalm (Reach.next r (Step.wakes i blocked_there)) = ⊥
IsCalm (Reach.next r step) = IsCalm r

-- Waiter `i` steps, its rounds finding no job, and a signal is carried out.
abbrev idles : ℕ → Waiting → Waiting
idles i s = advance true i s

abbrev signals : Waiting → Waiting
signals s = notify_all (clear s)

-- Both waiters find no job and waiter 0 blocks; the job of waiter 1 ends.
abbrev first_ends : Waiting → Waiting
first_ends s = signals (finalize 1 (idles 1 (idles 0 (idles 0 (idles 0 (idles 0 s))))))

-- The job of waiter 0 ends before waiter 0 has read the flag again; waiter 1 raises the flag, waiter 0
-- reads it, and waiter 1 takes it back.
abbrev lost : Waiting → Waiting
lost s = idles 1 (idles 1 (idles 1 (idles 0 (idles 1 (signals (finalize 0 (first_ends s)))))))

abbrev idle : {n : ℕ} {s t : Waiting} (i : ℕ) → i < n → Reach n s t → Reach n s (idles i t)
idle i k r = Reach.next r (Step.waits true i k)

-- A job of counter `k` ends, and the thread carries its signal out.
abbrev ends :
    {n : ℕ} {s t : Waiting} (k : ℕ)
    → 0 < t.counts k
    → Reach n s t
    → Reach n s (signals (finalize k t))
unfolding finalize clear
ends k h r =
    Reach.next (Reach.next (Reach.next r (Step.finalizes k h)) (Step.clears (omega arith)))
      (Step.notifies (omega arith))

-- For two waiters or more, of which the first two wait for one job each, there is an order of the
-- steps, without a spurious wake, after which waiter 0 is blocked on the wake signal, its counter is
-- zero, and no signal is on its way.
pub lost_wake :
    (n : ℕ) (counts : ℕ → ℕ) (flag : Bool)
    → 1 < n
    → (s : Waiting) × (r : Reach n (start (one_job_each counts) flag) s) × IsCalm r
      × (s.phase 0 ≡ blocked)
      × (s.counts 0 ≡ 0)
      × (s.clears ≡ 0)
      × (s.notifies ≡ 0)
      × (s.phase 1 ≡ returned)
unfolding next_phase advance finalize clear notify_all
lost_wake n counts flag more =
    let zeroth : 0 < n = omega arith in
    let before = idle 0 zeroth (idle 0 zeroth (idle 0 zeroth (idle 0 zeroth Reach.here))) in
    let middle = idle 1 more (ends 0 (omega arith) (ends 1 (omega arith) (idle 1 more before))) in
    let after = idle 1 more (idle 1 more (idle 1 more (idle 0 zeroth middle))) in
    (lost (start (one_job_each counts) flag), after, tt, refl, refl, refl, refl, refl)
