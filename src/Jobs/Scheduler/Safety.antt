-- ===== src/Jobs/Scheduler/Safety.antt =====
-- What holds of every history of a new scheduler.
use portal_framework.Base.{
  ℕ, zero, suc, ◌+◌, ◌≤◌, ◌≡◌, ◌≢◌, refl, ap, Option, none, some, List, [], ◌∷◌, arith,
}
use portal_framework.Base.Counting.{count}
use portal_framework.Base.Sums.{sum_below}
use portal_framework.Jobs.ConcurrentQueue.{ConcurrentQueue}
use portal_framework.Jobs.WorkerQueue.Contents.{AlwaysEnqueues}
use portal_framework.Jobs.WorkerQueue.History.{held-create}
use portal_framework.Jobs.Counter.Number.{number, belongs}
use portal_framework.Jobs.Scheduler.{create}
use portal_framework.Jobs.Scheduler.Contents.{waiting, context_count, IsScheduler}
use portal_framework.Jobs.Scheduler.History.{System, IsSystem, Reach, Reach-IsSystem}

sum_below-zero : (n : ℕ) (f : ℕ → ℕ) → ((i : ℕ) → f i ≡ 0) → sum_below n f ≡ 0
sum_below-zero zero f h = refl
sum_below-zero (suc n) f h = omega (arith, h n, sum_below-zero n f h)

number-zero :
    (k : ℕ) (f : ℕ → Option ℕ) (xs : List ℕ) (a : ℕ)
    → number k f xs ≡ 0
    → count a xs ≢ 0
    → f a ≢ some k
number-zero k f [] a e h same = h refl
number-zero k f (x ∷ xs) a e h same =
    let rest = number-zero k f xs a in ground (arith, ap (belongs k) same, rest)

module _ (cq : ConcurrentQueue) where
  -- A new scheduler, no job, and every counter at zero.
  abbrev pub start : ℕ → ℕ → System cq
  start n cache_size = record {
    scheduler = create cq n cache_size;
    promises = record { counts = λ k. 0; counter_of = λ j. none };
    running = [];
    pending = [];
  }

  waiting-create : (n m a : ℕ) → waiting cq a (create cq n m) ≡ 0
  unfolding create
  waiting-create n m a = omega (
    arith,
    held-create cq a,
    sum_below-zero n (λ i. context_count cq a ((create cq n m).contexts i))
        (λ i. omega (arith, held-create cq a)),
  )

  create-IsScheduler : (n m : ℕ) → IsScheduler cq (create cq n m)
  unfolding create
  create-IsScheduler n m = record { workers = λ i lt. omega arith; main = omega arith }

  start-IsSystem : (n m : ℕ) → IsSystem cq (start n m)
  start-IsSystem n m = record {
    valid = create-IsScheduler n m;
    placed = λ a. omega (arith, waiting-create n m a);
    distinct = λ a. omega arith;
    counted = λ k. refl;
    small = omega arith;
  }

  -- In every history of a new scheduler, with memory for the queues, in which only new jobs are
  -- dispatched: a job that was dispatched and has not ended is in exactly one place, either once in
  -- a queue or cache or once among the running jobs, and no other job is there.
  pub Reach-placed :
      (n m : ℕ) {s : System cq} (a : ℕ)
      → AlwaysEnqueues cq
      → Reach cq (start n m) s
      → (waiting cq a s.scheduler + count a s.running ≡ count a s.pending) × (count a s.pending ≤ 1)
  Reach-placed n m a enough r =
      let v = Reach-IsSystem cq enough r (start-IsSystem n m) in (v.placed a, v.distinct a)

  -- In every history of a new scheduler, with memory for the queues, in which only new jobs are
  -- dispatched: a counter holds the number of the pending jobs that were dispatched with it, also
  -- where jobs were suspended and resumed in between.
  pub Reach-counts :
      (n m : ℕ) {s : System cq} (k : ℕ)
      → AlwaysEnqueues cq
      → Reach cq (start n m) s
      → s.promises.counts k ≡ number k s.promises.counter_of s.pending
  Reach-counts n m k enough r = (Reach-IsSystem cq enough r (start-IsSystem n m)).counted k

  -- In every history of a new scheduler, with memory for the queues, in which only new jobs are
  -- dispatched: a counter that is at zero belongs to no pending job, so that every
  -- job that was dispatched with it has ended.
  pub Reach-ended :
      (n m : ℕ) {s : System cq} (k a : ℕ)
      → AlwaysEnqueues cq
      → Reach cq (start n m) s
      → s.promises.counts k ≡ 0
      → count a s.pending ≢ 0
      → s.promises.counter_of a ≢ some k
  Reach-ended n m {s} k a enough r e =
      number-zero k s.promises.counter_of s.pending a
        (omega (arith, Reach-counts n m k enough r, e))
