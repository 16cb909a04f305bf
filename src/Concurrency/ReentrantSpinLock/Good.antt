-- ===== src/Concurrency/ReentrantSpinLock/Good.antt =====
-- What an access of a thread does to the lock, for that thread and for the others.
use native.Mathlib.Nat.{mod-eq_of_lt, add-mod_right}
use portal_framework.Base.{
  ◌⊎◌, inl, inr, ℕ, ◌+◌, ◌-◌, ◌%◌, ◌<◌, ◌≡◌, ◌≢◌, refl, sym, ap, ◌∙◌, Bool-cases, ◌==◌, arith,
}
use portal_framework.Concurrency.ReentrantSpinLock.{
  ReentrantSpinLock, Phase, outside, loading, exchanging, counting, storing, asserting, lowering,
  storing_lower, comparing, releasing, failed, Call, try_lock, lock, refused, advance,
}

-- How often a thread holds the lock after an access: once more where `try_lock` or `lock` returns with
-- it, and once less from where `unlock` has passed its assertion.
abbrev pub holds_after : Phase → Phase → ℕ → ℕ
holds_after (storing n) q h = h + 1
holds_after asserting lowering h = h - 1
holds_after p q h = h

-- A thread that does not have the lock, and one that has it and whose holds the lock counts.
abbrev pub IsWithout : ℕ → ℕ → ReentrantSpinLock → Type 0
IsWithout t h s = (h ≡ 0) × (s.locked_thread ≢ t)

abbrev pub IsOwner : ℕ → ℕ → ReentrantSpinLock → Type 0
IsOwner t h s = (s.locked_thread ≡ t) × (s.ref_count ≡ h)

module _ (m : ℕ) where
  -- What is known of a thread in each phase; `t` is its hash, and `h` how often it holds the lock.
  abbrev pub IsGood : ℕ → Phase → ℕ → ReentrantSpinLock → Type 0
  IsGood t outside h s = (h < m) × (IsWithout t h s ⊎ ((0 < h) × IsOwner t h s))
  IsGood t (loading call) h s = (h + 1 < m) × (IsWithout t h s ⊎ ((0 < h) × IsOwner t h s))
  IsGood t (exchanging call) h s = (h + 1 < m) × IsWithout t h s
  IsGood t counting h s = (h + 1 < m) × IsOwner t h s
  IsGood t (storing n) h s = (h + 1 < m) × (IsOwner t h s × (n ≡ h + 1))
  IsGood t asserting h s = (h < m) × (IsWithout t h s ⊎ ((0 < h) × IsOwner t h s))
  IsGood t lowering h s = (h + 1 < m) × IsOwner t (h + 1) s
  IsGood t (storing_lower n) h s = (h + 1 < m) × ((s.locked_thread ≡ t) × (n ≡ h))
  IsGood t comparing h s = (h + 1 < m) × IsOwner t h s
  IsGood t releasing h s = (h + 1 < m) × (IsOwner t h s × (h ≡ 0))
  IsGood t failed h s = IsWithout t h s

  -- The hash of a thread that holds the lock stands in it.
  pub held-owner :
      (t h : ℕ) (p : Phase) (s : ReentrantSpinLock) → IsGood t p h s → h ≢ 0 → s.locked_thread ≡ t
  held-owner t h outside s (_, inl (z, _)) k = absurd (k z)
  held-owner t h outside s (_, inr (_, (own, _))) k = own
  held-owner t h (loading c) s (_, inl (z, _)) k = absurd (k z)
  held-owner t h (loading c) s (_, inr (_, (own, _))) k = own
  held-owner t h (exchanging c) s (_, (z, _)) k = absurd (k z)
  held-owner t h counting s (_, (own, _)) k = own
  held-owner t h (storing n) s (_, ((own, _), _)) k = own
  held-owner t h asserting s (_, inl (z, _)) k = absurd (k z)
  held-owner t h asserting s (_, inr (_, (own, _))) k = own
  held-owner t h lowering s (_, (own, _)) k = own
  held-owner t h (storing_lower n) s (_, (own, _)) k = own
  held-owner t h comparing s (_, (own, _)) k = own
  held-owner t h releasing s (_, ((own, _), _)) k = own
  held-owner t h failed s (z, _) k = absurd (k z)

  -- The accesses of an owner do not concern a thread that does not have the lock before or after.
  pub other-IsGood :
      (t : ℕ) (p : Phase) (h : ℕ) (s s' : ReentrantSpinLock)
      → s.locked_thread ≢ t
      → s'.locked_thread ≢ t
      → IsGood t p h s
      → IsGood t p h s'
  other-IsGood t outside h s s' n n' (lt, inl (z, _)) = (lt, inl (z, n'))
  other-IsGood t outside h s s' n n' (lt, inr (_, (own, _))) = absurd (n own)
  other-IsGood t (loading call) h s s' n n' (lt, inl (z, _)) = (lt, inl (z, n'))
  other-IsGood t (loading call) h s s' n n' (lt, inr (_, (own, _))) = absurd (n own)
  other-IsGood t (exchanging call) h s s' n n' (lt, (z, _)) = (lt, (z, n'))
  other-IsGood t counting h s s' n n' (_, (own, _)) = absurd (n own)
  other-IsGood t (storing k) h s s' n n' (_, ((own, _), _)) = absurd (n own)
  other-IsGood t asserting h s s' n n' (lt, inl (z, _)) = (lt, inl (z, n'))
  other-IsGood t asserting h s s' n n' (lt, inr (_, (own, _))) = absurd (n own)
  other-IsGood t lowering h s s' n n' (_, (own, _)) = absurd (n own)
  other-IsGood t (storing_lower k) h s s' n n' (_, (own, _)) = absurd (n own)
  other-IsGood t comparing h s s' n n' (_, (own, _)) = absurd (n own)
  other-IsGood t releasing h s s' n n' (_, ((own, _), _)) = absurd (n own)
  other-IsGood t failed h s s' n n' (z, _) = (z, n')

  -- A lock without an owner has no references.
  abbrev pub IsFree : ReentrantSpinLock → Type 0
  IsFree s = s.locked_thread ≡ 0 → s.ref_count ≡ 0

  -- The lock is as before, or the thread has it before or after, and no other thread does.
  abbrev pub IsLocal : ℕ → ReentrantSpinLock → ReentrantSpinLock → Type 0
  IsLocal t s s' =
      (s' ≡ s) ⊎ ((u : ℕ) → u ≢ t → u ≢ 0 → (s.locked_thread ≢ u) × (s'.locked_thread ≢ u))

  pub record Advances (t : ℕ) (p : Phase) (h : ℕ) (s : ReentrantSpinLock)
      (out : Phase × ReentrantSpinLock) : Type 0 where
    pub good : IsGood t out.0 (holds_after p out.0 h) out.1
    pub free : IsFree out.1
    pub local : IsLocal t s out.1

  count_down : (n : ℕ) → n + 1 < m → (n + 1 + m - 1) % m ≡ n
  count_down n small =
      let same : n + 1 + m - 1 ≡ n + m = omega arith in
      ap (λ k. k % m) same ∙ add-mod_right n m ∙ mod-eq_of_lt (omega arith)

  -- What a thread finds that compares `locked_thread` with its hash.
  has_it :
      (t h : ℕ) (s : ReentrantSpinLock)
      → s.locked_thread ≡ t
      → IsWithout t h s ⊎ ((0 < h) × IsOwner t h s)
      → (0 < h) × IsOwner t h s
  has_it t h s own (inl (_, ne)) = absurd (ne own)
  has_it t h s own (inr g) = g

  has_not :
      (t h : ℕ) (s : ReentrantSpinLock)
      → s.locked_thread ≢ t
      → IsWithout t h s ⊎ ((0 < h) × IsOwner t h s)
      → IsWithout t h s
  has_not t h s ne (inl g) = g
  has_not t h s ne (inr (_, (own, _))) = absurd (ne own)

  kept_local :
      (t : ℕ) (s : ReentrantSpinLock)
      → s.locked_thread ≡ t
      → (u : ℕ) → u ≢ t
      → u ≢ 0
      → (s.locked_thread ≢ u) × (s.locked_thread ≢ u)
  kept_local t s own u ne nz = ((λ q. ne (sym q ∙ own)), (λ q. ne (sym q ∙ own)))

  assert_good :
      (t h : ℕ) (s : ReentrantSpinLock)
      → h < m
      → (0 < h) × IsOwner t h s
      → ((h - 1) + 1 < m) × IsOwner t ((h - 1) + 1) s
  assert_good t h s lt (pos, (own, same)) = (omega arith, (own, same ∙ omega arith))

  refused-Advances :
      (t : ℕ) (call : Call) (h : ℕ) (s : ReentrantSpinLock)
      → IsFree s
      → h + 1 < m
      → IsWithout t h s
      → Advances t (exchanging call) h s (refused call, s)
  refused-Advances t try_lock h s f lt g = record {
    good = (omega arith, inl g);
    free = f;
    local = inl refl;
  }
  refused-Advances t lock h s f lt g = record { good = (lt, g); free = f; local = inl refl }

  pub advance-Advances :
      (t : ℕ) (p : Phase) (h : ℕ) (s : ReentrantSpinLock)
      → t ≢ 0
      → IsFree s
      → IsGood t p h s
      → Advances t p h s (advance m t p s)
  unfolding advance
  advance-Advances t outside h s nz f g = record { good = g; free = f; local = inl refl }
  advance-Advances t (loading call) h s nz f (lt, g) = elim (Bool-cases (s.locked_thread == t)) [
    | inl own ↦
        rw own
          (record { good = (lt, (has_it t h s (ground arith) g).1); free = f; local = inl refl })
    | inr none ↦
        rw none (record { good = (lt, has_not t h s (ground arith) g); free = f; local = inl refl })
  ]
  advance-Advances t (exchanging call) h s nz f (lt, (z, ne)) =
      elim (Bool-cases (s.locked_thread == 0)) [
        | inl empty ↦ rw empty (record {
          good = (lt, (refl, f (ground arith) ∙ sym z));
          free = λ e. absurd (nz e);
          local = inr (λ u ne0 nz0. (ground (arith, nz0), ground (arith, ne0)));
        })
        | inr taken ↦ rw taken (refused-Advances t call h s f lt (z, ne))
      ]
  advance-Advances t counting h s nz f (lt, (own, same)) = record {
    good = (lt, ((own, same), ap (λ k. (k + 1) % m) same ∙ mod-eq_of_lt lt));
    free = f;
    local = inl refl;
  }
  advance-Advances t (storing n) h s nz f (lt, ((own, same), e)) = record {
    good = (omega (arith, e), inr (omega arith, (own, e)));
    free = λ q. absurd (nz (sym own ∙ q));
    local = inr (kept_local t s own);
  }
  advance-Advances t asserting h s nz f (lt, g) = elim (Bool-cases (s.locked_thread == t)) [
    | inl own ↦ rw own (record {
      good = assert_good t h s lt (has_it t h s (ground arith) g);
      free = f;
      local = inl refl;
    })
    | inr none ↦
        rw none (record { good = has_not t h s (ground arith) g; free = f; local = inl refl })
  ]
  advance-Advances t lowering h s nz f (lt, (own, same)) = record {
    good = (lt, (own, ap (λ k. (k + m - 1) % m) same ∙ count_down h lt));
    free = f;
    local = inl refl;
  }
  advance-Advances t (storing_lower n) h s nz f (lt, (own, e)) = record {
    good = (lt, (own, e));
    free = λ q. absurd (nz (sym own ∙ q));
    local = inr (kept_local t s own);
  }
  advance-Advances t comparing h s nz f (lt, (own, same)) = elim (Bool-cases (s.ref_count == 0)) [
    | inl last ↦
        rw last (record {
          good = (lt, ((own, same), sym same ∙ ground arith));
          free = f;
          local = inl refl;
        })
    | inr more ↦ rw more (record {
      good = (omega arith, inr (ground arith, (own, same)));
      free = f;
      local = inl refl;
    })
  ]
  advance-Advances t releasing h s nz f (lt, ((own, same), z)) = record {
    good = (omega arith, inl (z, λ q. nz (sym q)));
    free = λ q. same ∙ z;
    local = inr (λ u ne0 nz0. ((λ q. ne0 (sym q ∙ own)), (λ q. nz0 (sym q))));
  }
  advance-Advances t failed h s nz f g = record { good = g; free = f; local = inl refl }
