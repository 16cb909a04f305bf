-- ===== src/Memory/PoolAllocator/FreeList.antt =====
-- The list of free slots as a list of offsets.
use portal_framework.Base.{
  ℕ, zero, suc, ◌+◌, ◌*◌, ◌≤◌, ◌<◌, ◌≡◌, ◌≢◌, refl, List, [], ◌∷◌, Option, some, arith, length, ap,
  sym, subst, ℕ_discrete, ◌∙◌, lt→ltb,
}
use portal_framework.Base.Counting.{count}
use portal_framework.Memory.PoolAllocator.{store, pool_size, link_slot, link_slots}

-- From the pointer `h` the words of the slots lead through the listed offsets to `last`.
abbrev pub Linked : ℕ → (ℕ → Option ℕ) → Option ℕ → List ℕ → Type 0
Linked last cell h [] = h ≡ some last
Linked last cell h (p ∷ ps) = (h ≡ some p) × (p ≢ last) × Linked last cell (cell p) ps

-- A write outside the free slots leaves their list as it is.
pub Linked-store :
    (last p : ℕ) (v : Option ℕ) (cell : ℕ → Option ℕ) (h : Option ℕ) (ps : List ℕ)
    → count p ps ≡ 0
    → Linked last cell h ps
    → Linked last (store p v cell) h ps
Linked-store last p v cell h [] none_here l = l
Linked-store last p v cell h (q ∷ qs) none_here l =
    ground (arith, Linked-store last p v cell (cell q) qs)

-- `n` offsets from `i` in steps of `b`.
abbrev pub slots : ℕ → ℕ → ℕ → List ℕ
slots b zero i = []
slots b (suc n) i = i ∷ slots b n (i + b)

pub length-slots : (b n i : ℕ) → length (slots b n i) ≡ n
length-slots b zero i = refl
length-slots b (suc n) i = omega (arith, length-slots b n (i + b))

slots_above : (b n i a : ℕ) → a < i → count a (slots b n i) ≡ 0
slots_above b zero i a h = refl
slots_above b (suc n) i a h = ground (arith, slots_above b n (i + b) a)

-- The slots are pairwise different.
pub count-slots-le : (b n i a : ℕ) → 0 < b → count a (slots b n i) ≤ 1
count-slots-le b zero i a h = omega arith
count-slots-le b (suc n) i a h =
    ground (arith, slots_above b n (i + b) a, count-slots-le b n (i + b) a)

-- The loop writes nothing below its offset.
link_slots_below :
    (b c fuel i q : ℕ) (cell : ℕ → Option ℕ) → q < i → link_slots b c fuel i cell q ≡ cell q
unfolding link_slots
link_slots_below b c zero i q cell h = refl
link_slots_below b c (suc fuel) i q cell h =
    ground (arith, link_slots_below b c fuel (i + b) q (link_slot b c i cell))

link_slot_self : (b c i : ℕ) (cell : ℕ → Option ℕ) → link_slot b c i cell i ≡ some (i + b)
unfolding link_slot
link_slot_self b c i cell = ground arith

link_slots-suc :
    (b c fuel i : ℕ) (cell : ℕ → Option ℕ)
    → i < pool_size b c
    → link_slots b c (suc fuel) i cell ≡ link_slots b c fuel (i + b) (link_slot b c i cell)
unfolding link_slots
link_slots-suc b c fuel i cell h = rw (lt→ltb i (pool_size b c) h)

-- With `n` slots from `i` on to the end of the pool, `n` rounds link them all.
pub link_slots-Linked :
    (b c n i : ℕ) (cell : ℕ → Option ℕ)
    → 0 < b
    → i + n * b ≡ pool_size b c
    → Linked (pool_size b c) (link_slots b c n i cell) (some i) (slots b n i)
link_slots-Linked b c zero i cell pos e = ap some (omega arith)
link_slots-Linked b c (suc n) i cell pos e =
    let inside : i < pool_size b c = omega arith in
    let out = link_slots b c n (i + b) (link_slot b c i cell) in
    let next : out i ≡ some (i + b) =
      link_slots_below b c n (i + b) i (link_slot b c i cell) (omega arith)
      ∙ link_slot_self b c i cell in
    let rest = link_slots-Linked b c n (i + b) (link_slot b c i cell) pos (omega arith) in
    let linked : Linked (pool_size b c) out (some i) (slots b (suc n) i) =
      (refl, (λ e'. omega arith), rw next rest) in
    subst (λ f. Linked (pool_size b c) f (some i) (slots b (suc n) i))
      (sym (link_slots-suc b c n i cell inside)) linked

-- A slot lies below the end of the pool.
pub slots-lt : (b n i a : ℕ) → 0 < b → count a (slots b n i) ≢ 0 → a < i + n * b
slots-lt b zero i a pos h = absurd (h refl)
slots-lt b (suc n) i a pos h = elim (ℕ_discrete a i) [
  | yes e ↦ omega arith
  | no ne ↦ omega (arith, slots-lt b n (i + b) a pos (ground arith))
]
