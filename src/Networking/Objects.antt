-- ===== src/Networking/Objects.antt =====
-- Changes of one connection, and of the map from handles to connections.
use portal_framework.Base.{
  ℕ, ◌≡◌, ◌≢◌, refl, sym, subst, ◌∙◌, true, false, Option, some, List, ◌==◌, arith, Bool-cases, inl,
  inr, ◌⊎◌,
}
use portal_framework.Base.Maps.{lookup, insert, erase, lookup-insert, lookup-erase}
use portal_framework.Networking.{Connection, set_object}

pub erase-some :
    (k h j : ℕ) (m : List (ℕ × ℕ)) → lookup h (erase k m) ≡ some j → (k ≢ h) × (lookup h m ≡ some j)
erase-some k h j m e =
    let rule = lookup-erase k h m in
    elim (Bool-cases (k == h)) [
      | inl same ↦ cc
      | inr other ↦ (ground arith, sym (rule ∙ rw other refl) ∙ e)
    ]

-- The object that is changed, and the others.
pub set_object_self :
    (i : ℕ) (c : Connection) (objects : ℕ → Connection) → set_object i c objects i ≡ c
set_object_self i c objects = let same : (i == i) ≡ true = ground arith in rw same

pub set_object_other :
    (i j : ℕ) (c : Connection) (objects : ℕ → Connection)
    → i ≢ j
    → set_object i c objects j ≡ objects j
set_object_other i j c objects ne = let other : (i == j) ≡ false = ground arith in rw other

pub some-injective : {i j : ℕ} → ◌≡◌ {A = Option ℕ} (some i) (some j) → i ≡ j
some-injective e = cc

-- A statement about each object after one has changed.
pub each_object :
    (P : ℕ → Connection → Type 0) (i : ℕ) (c : Connection) (objects : ℕ → Connection)
    → P i c
    → ((j : ℕ) → i ≢ j → P j (objects j))
    → (j : ℕ) → P j (set_object i c objects j)
each_object P i c objects own others j = elim (Bool-cases (i == j)) [
  | inl same ↦
      let e : i ≡ j = ground arith in
      subst (λ k. P k (set_object i c objects k)) e
        (subst (P i) (sym (set_object_self i c objects)) own)
  | inr other ↦
      let ne : i ≢ j = ground arith in
      subst (P j) (sym (set_object_other i j c objects ne)) (others j ne)
]

pub insert-some :
    (k v h j : ℕ) (m : List (ℕ × ℕ))
    → lookup h (insert k v m) ≡ some j
    → ((k ≡ h) × (v ≡ j)) ⊎ ((k ≢ h) × (lookup h m ≡ some j))
insert-some k v h j m e =
    let rule = lookup-insert k h v m in
    elim (Bool-cases (k == h)) [
      | inl same ↦ inl (ground arith, some-injective (sym (rule ∙ rw same refl) ∙ e))
      | inr other ↦ inr (ground arith, sym (rule ∙ rw other refl) ∙ e)
    ]
