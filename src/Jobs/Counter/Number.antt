-- ===== src/Jobs/Counter/Number.antt =====
-- How many jobs of a list belong to a counter.
use portal_framework.Base.{
  ℕ, ◌+◌, ◌^◌, ◌≤◌, ◌<◌, ◌≡◌, ◌≢◌, refl, Option, none, some, List, [], ◌∷◌, ◌++◌, length, arith,
  ℕ_discrete, ◌==◌, if◌then◌else◌, ap,
}
use portal_framework.Base.Counting.{count, remove}
use portal_framework.Jobs.Counter.{Promises, set_counters, dispatch_counter, finalize}

abbrev pub belongs : ℕ → Option ℕ → ℕ
belongs k none = 0
belongs k (some c) = if c == k then 1 else 0

abbrev pub number : ℕ → (ℕ → Option ℕ) → List ℕ → ℕ
number k f [] = 0
number k f (x ∷ xs) = belongs k (f x) + number k f xs

pub number-append :
    (k : ℕ) (f : ℕ → Option ℕ) (xs ys : List ℕ)
    → number k f (xs ++ ys) ≡ number k f xs + number k f ys
number-append k f [] ys = omega arith
number-append k f (x ∷ xs) ys = omega (arith, number-append k f xs ys)

pub number-remove :
    (k a : ℕ) (f : ℕ → Option ℕ) (xs : List ℕ)
    → count a xs ≢ 0
    → number k f xs ≡ belongs k (f a) + number k f (remove a xs)
number-remove k a f [] h = absurd (h refl)
number-remove k a f (x ∷ xs) h = elim (ℕ_discrete a x) [
  | yes e ↦ rw e (ground arith)
  | no ne ↦ ground (arith, number-remove k a f xs)
]

pub number-le-length : (k : ℕ) (f : ℕ → Option ℕ) (xs : List ℕ) → number k f xs ≤ length xs
number-le-length k f [] = omega arith
number-le-length k f (x ∷ xs) = ground (arith, number-le-length k f xs)

-- Two assignments that agree on a list give the same number.
pub number-eq :
    (k : ℕ) (f g : ℕ → Option ℕ) (xs : List ℕ)
    → ((a : ℕ) → count a xs ≢ 0 → f a ≡ g a)
    → number k f xs ≡ number k g xs
number-eq k f g [] h = refl
number-eq k f g (x ∷ xs) h = omega (
  arith,
  ap (belongs k) (h x (ground arith)),
  number-eq k f g xs (λ a c. h a (λ z. ground arith)),
)

-- After the loop exactly the jobs of the list have the new counter.
pub set_counters-other :
    (jobs : List ℕ) (k : ℕ) (f : ℕ → Option ℕ) (a : ℕ)
    → count a jobs ≡ 0
    → set_counters jobs k f a ≡ f a
unfolding set_counters
set_counters-other [] k f a h = refl
set_counters-other (j ∷ jobs) k f a h =
    ground (arith, set_counters-other jobs k (λ i. if j == i then some k else f i) a)

pub set_counters-new :
    (jobs : List ℕ) (k : ℕ) (f : ℕ → Option ℕ) (a : ℕ)
    → count a jobs ≢ 0
    → set_counters jobs k f a ≡ some k
unfolding set_counters
set_counters-new [] k f a h = absurd (h refl)
set_counters-new (j ∷ jobs) k f a h = ground (
  arith,
  set_counters-new jobs k (λ i. if j == i then some k else f i) a,
  set_counters-other jobs k (λ i. if j == i then some k else f i) a,
)

pub number-all :
    (k c : ℕ) (f : ℕ → Option ℕ) (xs : List ℕ)
    → ((a : ℕ) → count a xs ≢ 0 → f a ≡ some c)
    → number k f xs ≡ (if c == k then length xs else 0)
number-all k c f [] h = ground arith
number-all k c f (x ∷ xs) h =
    let e : f x ≡ some c = h x (ground arith) in
    let rest = number-all k c f xs (λ a z. h a (λ e'. ground arith)) in rw e (ground (arith, rest))

number-none :
    (k : ℕ) (f : ℕ → Option ℕ) (xs : List ℕ)
    → ((a : ℕ) → count a xs ≢ 0 → f a ≡ none)
    → number k f xs ≡ 0
number-none k f [] h = refl
number-none k f (x ∷ xs) h =
    let e : f x ≡ none = h x (ground arith) in
    rw e (omega (arith, number-none k f xs (λ a z. h a (λ e'. ground arith))))

-- The counters tell how many of the jobs belong to them.
abbrev pub IsCounted : Promises → List ℕ → Type 0
IsCounted s jobs = (k : ℕ) → s.counts k ≡ number k s.counter_of jobs

pub dispatch_counter-IsCounted :
    (new jobs : List ℕ) (c : Option ℕ) (s : Promises)
    → ((a : ℕ) → count a new + count a jobs ≤ 1)
    → ((a : ℕ) → count a new ≢ 0 → s.counter_of a ≡ none)
    → length new + length jobs < 2 ^ 64
    → IsCounted s jobs
    → IsCounted (dispatch_counter new c s) (new ++ jobs)
unfolding dispatch_counter
dispatch_counter-IsCounted new jobs none s distinct fresh small v k =
    omega (arith, v k, number-append k s.counter_of new jobs, number-none k s.counter_of new fresh)
dispatch_counter-IsCounted new jobs (some c) s distinct fresh small v k =
    let g = set_counters new c s.counter_of in
    let mine : number k g new ≡ (if c == k then length new else 0) =
      number-all k c g new (λ a h. set_counters-new new c s.counter_of a h) in
    let others : number k g jobs ≡ number k s.counter_of jobs =
      number-eq k g s.counter_of jobs
        (λ a h. set_counters-other new c s.counter_of a (omega (arith, distinct a))) in
    ground
      (arith, v k, mine, others, number-append k g new jobs, number-le-length k s.counter_of jobs)

pub finalize-IsCounted :
    (job : ℕ) (jobs : List ℕ) (s : Promises)
    → count job jobs ≢ 0
    → length jobs < 2 ^ 64
    → IsCounted s jobs
    → IsCounted (finalize job s) (remove job jobs)
unfolding finalize
finalize-IsCounted job jobs s there small v k =
    ground (
      arith,
      v k,
      number-remove k job s.counter_of jobs there,
      number-le-length k s.counter_of jobs,
    )
