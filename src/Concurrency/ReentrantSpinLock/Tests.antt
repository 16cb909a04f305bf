-- ===== src/Concurrency/ReentrantSpinLock/Tests.antt =====
-- Two threads at a lock, and the theorem applied to them.
use portal_framework.Base.{ℕ, ◌+◌, ◌≡◌, ◌≢◌, refl, arith}
use portal_framework.Concurrency.ReentrantSpinLock.{Phase, loading, Call, advance}
use portal_framework.Concurrency.ReentrantSpinLock.History.{
  System, start, put, Step, Reach, Reach-exclusive,
}

abbrev hash : ℕ → ℕ
hash i = i + 7

abbrev access : ℕ → System → System
access i y = put i (advance 256 (hash i) (y.phase i) y.mutex) y

-- Threads 0 and 1 call `lock` and find it free; thread 0 makes the exchange first and returns, and
-- thread 1 tries in vain.
abbrev both_call : System
both_call =
    let one = put 0 (loading Call.lock, start.mutex) start in
    put 1 (loading Call.lock, one.mutex) one

abbrev taken : System
taken = access 1 (access 0 (access 0 (access 1 (access 0 (access 1 (access 0 both_call))))))

taken-Reach : Reach 256 hash taken
unfolding advance
taken-Reach =
    let r1 = Reach.next Reach.here (Step.locks 0 Call.lock refl (omega arith)) in
    let r2 : Reach 256 hash both_call = Reach.next r1 (Step.locks 1 Call.lock refl (omega arith)) in
    let r3 = Reach.next r2 (Step.moves 0) in
    let r4 = Reach.next r3 (Step.moves 1) in
    let r5 = Reach.next r4 (Step.moves 0) in
    let r6 = Reach.next r5 (Step.moves 1) in
    let r7 = Reach.next r6 (Step.moves 0) in
    let r8 = Reach.next r7 (Step.moves 0) in Reach.next r8 (Step.moves 1)

abbrev winner : ℕ
winner = 0

Reach-exclusive_example : (winner ≡ winner) × (taken.phase 0 ≢ Phase.failed)
unfolding advance
Reach-exclusive_example =
    Reach-exclusive 256 hash winner winner taken (omega arith) (λ k e. omega arith)
      (λ k l e. omega arith) taken-Reach (omega arith) (omega arith)
