-- ===== src/Concurrency/ReentrantSpinLock/History.antt =====
-- Histories of threads that lock and unlock, with the number of times that each holds the lock.
use portal_framework.Base.{
  true, false, inl, inr, subst, ℕ, ◌+◌, ◌<◌, ◌≡◌, ◌≢◌, refl, sym, ◌∙◌, ◌==◌, if◌then◌else◌, arith,
  ℕ_discrete,
}
use portal_framework.Concurrency.ReentrantSpinLock.{
  ReentrantSpinLock, create, Phase, outside, loading, asserting, Call, advance,
}
use portal_framework.Concurrency.ReentrantSpinLock.Good.{
  holds_after, IsGood, IsFree, other-IsGood, held-owner, Advances, advance-Advances,
}

-- A lock and its threads: where each is, and how often it holds the lock.
pub record System : Type 0 where
  pub mutex : ReentrantSpinLock
  pub phase : ℕ → Phase
  pub holds : ℕ → ℕ

abbrev pub start : System
start = record { mutex = create; phase = λ i. outside; holds = λ i. 0 }

abbrev pub update {ℓ} : {A : Type ℓ} → (ℕ → A) → ℕ → A → ℕ → A
update f i a j = if i == j then a else f j

-- Thread `i` is in a phase, and the lock as it leaves it.
abbrev pub put : ℕ → Phase × ReentrantSpinLock → System → System
put i (p, s) y = record {
  mutex = s;
  phase = update y.phase i p;
  holds = update y.holds i (holds_after (y.phase i) p (y.holds i));
}

module _ (m : ℕ) (hash : ℕ → ℕ) where
  -- A thread outside of a call begins one: to lock where `ref_count` can count one hold more, and to
  -- unlock at any time. A thread in a call makes its next access.
  pub data Step (y : System) : System → Type 0 where
    locks :
        (i : ℕ) (call : Call)
        → y.phase i ≡ outside
        → y.holds i + 1 < m
        → Step y (put i (loading call, y.mutex) y)
    unlocks : (i : ℕ) → y.phase i ≡ outside → Step y (put i (asserting, y.mutex) y)
    moves : (i : ℕ) → Step y (put i (advance m (hash i) (y.phase i) y.mutex) y)

  pub data Reach : System → Type 0 where
    here : Reach start
    next : {y z : System} → Reach y → Step y z → Reach z

  pub record IsLock (y : System) : Type 0 where
    pub good : (i : ℕ) → IsGood m (hash i) (y.phase i) (y.holds i) y.mutex
    pub free : IsFree m y.mutex

  module _ (nonzero : (i : ℕ) → hash i ≢ 0) (distinct : (i j : ℕ) → hash i ≡ hash j → i ≡ j) where
    put-IsLock :
        (i : ℕ) (out : Phase × ReentrantSpinLock) (y : System)
        → Advances m (hash i) (y.phase i) (y.holds i) y.mutex out
        → IsLock y
        → IsLock (put i out y)
    put-IsLock i (p, s) y a v = record {
      free = a.free;
      good = λ j. elim (ℕ_discrete i j) [
        | yes same ↦
            subst
              (λ k.
                IsGood m (hash k) (update y.phase i p k)
                  (update y.holds i (holds_after (y.phase i) p (y.holds i)) k) s)
              same (rw (eq_self i) a.good)
        | no other ↦
            let differs : (i == j) ≡ false = ground (arith, other) in rw differs (others j other)
      ];
    }
      where
        eq_self : (n : ℕ) → (n == n) ≡ true
        eq_self n = ground arith

        others : (j : ℕ) → i ≢ j → IsGood m (hash j) (y.phase j) (y.holds j) s
        others j other = elim a.local [
          | inl e ↦ subst (IsGood m (hash j) (y.phase j) (y.holds j)) (sym e) (v.good j)
          | inr apart ↦
              let (before, after) =
                apart (hash j) (λ e. other (distinct i j (sym e))) (nonzero j) in
              other-IsGood m (hash j) (y.phase j) (y.holds j) y.mutex s before after (v.good j)
        ]

    -- A thread begins a call: the lock and the holds are as before.
    begins-Advances :
        (i : ℕ) (p : Phase) (y : System)
        → y.phase i ≡ outside
        → IsLock y
        → IsGood m (hash i) p (y.holds i) y.mutex
        → Advances m (hash i) (y.phase i) (y.holds i) y.mutex (p, y.mutex)
    begins-Advances i p y out v g =
        subst (λ q. Advances m (hash i) q (y.holds i) y.mutex (p, y.mutex)) (sym out)
          (record { good = g; free = v.free; local = inl refl })

    outside-IsGood :
        (i : ℕ) (y : System)
        → y.phase i ≡ outside
        → IsLock y
        → IsGood m (hash i) outside (y.holds i) y.mutex
    outside-IsGood i y out v = subst (λ q. IsGood m (hash i) q (y.holds i) y.mutex) out (v.good i)

    Step-IsLock : {y z : System} → Step y z → IsLock y → IsLock z
    Step-IsLock {y} (locks i call out lt) v =
        put-IsLock i _ y (begins-Advances i _ y out v (lt, (outside-IsGood i y out v).1)) v
    Step-IsLock {y} (unlocks i out) v =
        put-IsLock i _ y (begins-Advances i _ y out v (outside-IsGood i y out v)) v
    Step-IsLock {y} (moves i) v =
        put-IsLock i _ y
          (advance-Advances m (hash i) (y.phase i) (y.holds i) y.mutex (nonzero i) v.free
            (v.good i))
          v

    Reach-IsLock : {y : System} → 0 < m → Reach y → IsLock y
    Reach-IsLock pos here = record {
      good = λ i. (pos, inl (refl, λ e. nonzero i (sym e)));
      free = λ e. refl;
    }
    Reach-IsLock pos (next r st) = Step-IsLock st (Reach-IsLock pos r)

-- In every history of a new lock and its threads, their accesses interleaved in any order: two threads
-- that both hold the lock are one; and of a thread that holds it, no call of `unlock` has failed its
-- assertion. The hashes of the threads are not 0 and differ, and a thread begins to lock only when it
-- holds the lock less often than the greatest number of the type of `ref_count`.
pub Reach-exclusive :
    (m : ℕ) (hash : ℕ → ℕ) (i j : ℕ) (y : System)
    → 0 < m
    → ((k : ℕ) → hash k ≢ 0)
    → ((k l : ℕ) → hash k ≡ hash l → k ≡ l)
    → Reach m hash y
    → y.holds i ≢ 0
    → y.holds j ≢ 0
    → (i ≡ j) × (y.phase i ≢ Phase.failed)
Reach-exclusive m hash i j y pos nonzero distinct r hi hj =
    let v = Reach-IsLock m hash nonzero distinct pos r in
    let own = held-owner m (hash i) (y.holds i) (y.phase i) y.mutex (v.good i) hi in
    let own' = held-owner m (hash j) (y.holds j) (y.phase j) y.mutex (v.good j) hj in
    (
      distinct i j (sym own ∙ own'),
      λ e. hi (subst (λ q. IsGood m (hash i) q (y.holds i) y.mutex) e (v.good i)).0,
    )
