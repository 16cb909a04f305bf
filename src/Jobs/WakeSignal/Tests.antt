-- ===== src/Jobs/WakeSignal/Tests.antt =====
-- Tests of Jobs.WakeSignal.
use portal_framework.Base.{◌+◌, ◌<◌, ◌≡◌, refl, true, false, arith}
use portal_framework.Jobs.WakeSignal.{
  blocked, returned, Waiting, next_phase, advance, finalize, Step, Reach, start,
}
use portal_framework.Jobs.WakeSignal.OneWaiter.{Reach-awaited}
use portal_framework.Jobs.WakeSignal.TwoWaiters.{one_job_each, IsCalm, lost_wake}

-- Thread 0 blocks while its job runs, and the job ends.
abbrev asleep : Waiting
asleep = advance true 0 (advance true 0 (advance true 0 (advance true 0 (start (λ i. 1) false))))

abbrev ended : Waiting
ended = finalize 0 asleep

ended-Reach : Reach 1 (start (λ i. 1) false) ended
unfolding next_phase advance
ended-Reach =
    Reach.next
      (Reach.next
        (Reach.next
          (Reach.next (Reach.next Reach.here (Step.waits true 0 (omega arith)))
            (Step.waits true 0 (omega arith)))
          (Step.waits true 0 (omega arith)))
        (Step.waits true 0 (omega arith)))
      (Step.finalizes 0 (omega arith))

Reach-awaited_example : 0 < ended.clears + ended.notifies
unfolding next_phase advance finalize
Reach-awaited_example = Reach-awaited (λ i. 1) false ended ended-Reach refl refl

lost_wake_example :
    (s : Waiting) × (r : Reach 2 (start (one_job_each (λ i. 1)) false) s) × IsCalm r
    × (s.phase 0 ≡ blocked)
    × (s.counts 0 ≡ 0)
    × (s.clears ≡ 0)
    × (s.notifies ≡ 0)
    × (s.phase 1 ≡ returned)
lost_wake_example = lost_wake 2 (λ i. 1) false (omega arith)
