-- ===== src/Jobs/WakeSignal/OneWaiter.antt =====
-- A single waiter never sleeps through the end of its jobs.
use portal_framework.Base.{
  ℕ, zero, suc, ◌+◌, ◌-◌, ◌<◌, ◌≡◌, refl, sym, ap, Bool, true, false, arith, ◌==◌, if◌then◌else◌,
  subst,
}
use portal_framework.Jobs.WakeSignal.{
  Phase, testing, found_none, rechecking, comparing, blocked, clearing, returned, Waiting,
  next_phase, advance, finalize, suspend, dispatch, clear, woken, update, notify_all, Step, Reach,
  start,
}

-- A waiter in phase `p`: where it sleeps or is about to, its counter is not zero or it will be woken.
abbrev pub IsAwaited : Phase → Bool → ℕ → ℕ → ℕ → Type 0
IsAwaited comparing true count c n = 0 < count + c
IsAwaited blocked true count c n = 0 < count + c
IsAwaited blocked false count c n = 0 < n
IsAwaited p flag count c n = Unit

abbrev IsWaiting : Waiting → Type 0
IsWaiting s = IsAwaited (s.phase 0) s.wake_signal (s.counts 0) s.clears s.notifies

-- The first test of the loop, and the second.
testing-IsAwaited :
    (done empty flag : Bool) (count c n : ℕ)
    → let (q, flag') : Phase × Bool =
        if done then (returned, flag) else if empty then (found_none, flag) else (testing, flag) in
      IsAwaited q flag' count c n
testing-IsAwaited true empty flag count c n = tt
testing-IsAwaited false true flag count c n = tt
testing-IsAwaited false false flag count c n = tt

rechecking-IsAwaited :
    (done flag : Bool) (count c n : ℕ)
    → (done ≡ false → 0 < count)
    → let (q, flag') : Phase × Bool = if done then (clearing, flag) else (comparing, flag) in
      IsAwaited q flag' count c n
rechecking-IsAwaited true flag count c n h = tt
rechecking-IsAwaited false true count c n h = let p = h refl in omega arith
rechecking-IsAwaited false false count c n h = tt

next_phase-IsAwaited :
    (p : Phase) (empty : Bool) (count : ℕ) (flag : Bool) (c n : ℕ)
    → IsAwaited p flag count c n
    → let (q, flag') = next_phase p empty count flag in IsAwaited q flag' count c n
unfolding next_phase
next_phase-IsAwaited testing empty count flag c n h =
    testing-IsAwaited (count == 0) empty flag count c n
next_phase-IsAwaited found_none empty count flag c n h = tt
next_phase-IsAwaited rechecking empty count flag c n h =
    rechecking-IsAwaited (count == 0) flag count c n (λ e. ground arith)
next_phase-IsAwaited comparing empty count true c n h = h
next_phase-IsAwaited comparing empty count false c n h = tt
next_phase-IsAwaited blocked empty count flag c n h = h
next_phase-IsAwaited clearing empty count flag c n h = tt
next_phase-IsAwaited returned empty count flag c n h = tt

-- A pending signal may be raised in number, the count may change as long as the sum does not vanish.
grown :
    (p : Phase) (flag : Bool) (a b c d n : ℕ)
    → (0 < a + c → 0 < b + d)
    → IsAwaited p flag a c n
    → IsAwaited p flag b d n
grown testing flag a b c d n f h = tt
grown found_none flag a b c d n f h = tt
grown rechecking flag a b c d n f h = tt
grown comparing true a b c d n f h = f h
grown comparing false a b c d n f h = tt
grown blocked true a b c d n f h = f h
grown blocked false a b c d n f h = h
grown clearing flag a b c d n f h = tt
grown returned flag a b c d n f h = tt

cleared : (p : Phase) (count c n : ℕ) → IsAwaited p false count c (n + 1)
cleared testing count c n = tt
cleared found_none count c n = tt
cleared rechecking count c n = tt
cleared comparing count c n = tt
cleared blocked count c n = omega arith
cleared clearing count c n = tt
cleared returned count c n = tt

woken-IsAwaited :
    (p : Phase) (flag : Bool) (count c m n : ℕ)
    → IsAwaited p flag count c m
    → IsAwaited (woken p) flag count c n
woken-IsAwaited testing flag count c m n h = tt
woken-IsAwaited found_none flag count c m n h = tt
woken-IsAwaited rechecking flag count c m n h = tt
woken-IsAwaited comparing true count c m n h = h
woken-IsAwaited comparing false count c m n h = tt
woken-IsAwaited blocked true count c m n h = h
woken-IsAwaited blocked false count c m n h = tt
woken-IsAwaited clearing flag count c m n h = tt
woken-IsAwaited returned flag count c m n h = tt

other : (k : ℕ) → (suc k == 0) ≡ false
other k = ground arith

update_other {ℓ} : {A : Type ℓ} (f : ℕ → A) (k : ℕ) (a : A) → update f (suc k) a 0 ≡ f 0
update_other f k a = ap (λ b. if b then a else f 0) (other k)

not_below : (i : ℕ) → ¬ (suc i < 1)
not_below i k = omega arith

Step-IsWaiting : {s t : Waiting} → Step 1 s t → IsWaiting s → IsWaiting t
unfolding advance finalize suspend dispatch clear notify_all
Step-IsWaiting {s} (Step.waits empty zero k) h =
    next_phase-IsAwaited (s.phase 0) empty (s.counts 0) s.wake_signal s.clears s.notifies h
Step-IsWaiting {s} (Step.waits empty (suc i) k) h = elim (not_below i k) [ ]
Step-IsWaiting {s} (Step.finalizes k p) h =
    grown (s.phase 0) s.wake_signal (s.counts 0) _ s.clears (s.clears + 1) s.notifies
      (λ q. omega arith) h
Step-IsWaiting {s} Step.suspends h =
    grown (s.phase 0) s.wake_signal (s.counts 0) (s.counts 0) s.clears (s.clears + 1) s.notifies
      (λ q. omega arith) h
Step-IsWaiting {s} (Step.dispatches zero m) h =
    grown (s.phase 0) s.wake_signal (s.counts 0) (s.counts 0 + m) s.clears s.clears s.notifies
      (λ q. omega arith) h
Step-IsWaiting {s} (Step.dispatches (suc k) m) h =
    subst (λ x. IsAwaited (s.phase 0) s.wake_signal x s.clears s.notifies)
      (sym (update_other s.counts k (s.counts (suc k) + m))) h
Step-IsWaiting {s} (Step.clears p) h = cleared (s.phase 0) (s.counts 0) (s.clears - 1) s.notifies
Step-IsWaiting {s} (Step.notifies p) h =
    woken-IsAwaited (s.phase 0) s.wake_signal (s.counts 0) s.clears s.notifies (s.notifies - 1) h
Step-IsWaiting {s} (Step.wakes zero e) h =
    woken-IsAwaited blocked s.wake_signal (s.counts 0) s.clears s.notifies s.notifies
      (subst (λ p. IsAwaited p s.wake_signal (s.counts 0) s.clears s.notifies) e h)
Step-IsWaiting {s} (Step.wakes (suc i) e) h =
    subst (λ p. IsAwaited p s.wake_signal (s.counts 0) s.clears s.notifies)
      (sym (update_other s.phase i comparing)) h

Reach-IsWaiting : {s t : Waiting} → Reach 1 s t → IsWaiting s → IsWaiting t
Reach-IsWaiting Reach.here h = h
Reach-IsWaiting (Reach.next r p) h = Step-IsWaiting p (Reach-IsWaiting r h)

IsBlocked : Phase → Type 0
IsBlocked blocked = Unit
IsBlocked p = ⊥

awaited :
    (p : Phase) (flag : Bool) (count c n : ℕ)
    → IsAwaited p flag count c n
    → IsBlocked p
    → count ≡ 0
    → 0 < c + n
unfolding IsBlocked
awaited blocked true count c n h e z = omega arith
awaited blocked false count c n h e z = omega arith
awaited testing flag count c n h e z = elim e [ ]
awaited found_none flag count c n h e z = elim e [ ]
awaited rechecking flag count c n h e z = elim e [ ]
awaited comparing flag count c n h e z = elim e [ ]
awaited clearing flag count c n h e z = elim e [ ]
awaited returned flag count c n h e z = elim e [ ]

-- A single thread in `wait_for_counter`, whatever the other threads finalize, suspend and dispatch,
-- in any order of the steps: where it is blocked on the wake signal and its counter is zero, a thread
-- still has to clear the flag, or has cleared it and still has to notify.
pub Reach-awaited :
    (counts : ℕ → ℕ) (flag : Bool) (s : Waiting)
    → Reach 1 (start counts flag) s
    → s.phase 0 ≡ blocked
    → s.counts 0 ≡ 0
    → 0 < s.clears + s.notifies
unfolding IsBlocked
Reach-awaited counts flag s r e z =
    awaited (s.phase 0) s.wake_signal (s.counts 0) s.clears s.notifies (Reach-IsWaiting r tt)
      (subst IsBlocked (sym e) tt) z
