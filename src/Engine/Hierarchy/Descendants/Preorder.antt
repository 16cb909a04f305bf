-- ===== src/Engine/Hierarchy/Descendants/Preorder.antt =====
-- The iterator visits the descendants in preorder.
use portal_framework.Base.{
  ℕ, zero, suc, ◌+◌, ◌<◌, ◌≤◌, ◌≡◌, ◌≢◌, refl, sym, ap, ◌∙◌, true, false, List, [], ◌∷◌, ◌++◌, none,
  some, ◌==◌, if◌then◌else◌, length, length-append, arith, Result, ok, err, ◌>>=◌,
}
use portal_framework.Base.Counting.{count}
use portal_framework.Base.Ordered.{Each}
use portal_framework.Engine.Hierarchy.{ComponentStorage, walk, children}
use portal_framework.Engine.Hierarchy.Siblings.{head}
use portal_framework.Engine.Hierarchy.Fields.{get_component-Stores}
use portal_framework.Engine.Hierarchy.Forest.{Forest, Represents}
use portal_framework.Engine.Hierarchy.Walk.{kid_has, kid_parent, children-kids}
use portal_framework.Engine.Hierarchy.Descendants.{
  push_children, advance_to_next, begin, visit, descendants,
}

-- The roots and what is below them, to a depth, each entity before its descendants and these before
-- the next sibling.
abbrev pub concat_map : (ℕ → List ℕ) → List ℕ → List ℕ
concat_map f [] = []
concat_map f (e ∷ es) = f e ++ concat_map f es

abbrev pub preorder : ℕ → (ℕ → List ℕ) → List ℕ → List ℕ
preorder zero kids es = []
preorder (suc depth) kids es = concat_map (λ e. e ∷ preorder depth kids (kids e)) es

abbrev prepend : List ℕ → Result (List ℕ) → Result (List ℕ)
prepend xs res = res >>= λ ys. ok (xs ++ ys)

append_assoc : (xs ys zs : List ℕ) → (xs ++ ys) ++ zs ≡ xs ++ (ys ++ zs)
append_assoc [] ys zs = refl
append_assoc (x ∷ xs) ys zs = ap (λ l. x ∷ l) (append_assoc xs ys zs)

prepend_nil : (res : Result (List ℕ)) → prepend [] res ≡ res
prepend_nil (ok ys) = refl
prepend_nil (err e) = refl

prepend-append :
    (xs ys : List ℕ) (res : Result (List ℕ)) → prepend (xs ++ ys) res ≡ prepend xs (prepend ys res)
prepend-append xs ys (ok zs) = ap ok (append_assoc xs ys zs)
prepend-append xs ys (err e) = refl

preorder_nil : (depth : ℕ) (kids : ℕ → List ℕ) → preorder depth kids [] ≡ []
preorder_nil zero kids = refl
preorder_nil (suc depth) kids = refl

append_nil : (xs : List ℕ) → xs ++ [] ≡ xs
append_nil [] = refl
append_nil (x ∷ xs) = ap (λ l. x ∷ l) (append_nil xs)

zero_add : (n : ℕ) → 0 + n ≡ n
zero_add n = omega arith

none_below : (n : ℕ) → ¬ (n < 0)
none_below n h = omega arith

bind_assoc :
    {A B C : Type 0} (res : Result A) (f : A → Result B) (g : B → Result C)
    → ((res >>= f) >>= g) ≡ (res >>= (λ a. f a >>= g))
bind_assoc (ok a) f g = refl
bind_assoc (err e) f g = refl

push_all :
    (xs stack : List ℕ) (res : Result (List ℕ))
    → res ≡ ok xs
    → (if length xs == 0 then ok stack else (res >>= λ temp. ok (temp ++ stack))) ≡ ok (xs ++ stack)
push_all [] stack res h = refl
push_all (x ∷ xs) stack res h =
    let some_there : (suc (length xs) == 0) ≡ false = ground arith in rw (some_there, h)

Each-count : (P : ℕ → Type 0) (xs : List ℕ) → ((k : ℕ) → count k xs ≢ 0 → P k) → Each P xs
Each-count P [] h = tt
Each-count P (x ∷ xs) h = (h x (ground arith), Each-count P xs (λ k c. h k (ground (arith, c))))

module _ (storage : ComponentStorage) (fuel : ℕ) (r : storage.Registry) (t : Forest)
    (w : Represents storage r t) (enough : (p : ℕ) → length (t.kids p) ≤ fuel) (rank : ℕ → ℕ)
    (ranked : (e p : ℕ) → t.parent e ≡ some p → rank e < rank p) where
  walk-kids : (e : ℕ) → t.has e ≡ true → walk storage fuel (head (t.kids e)) r ≡ ok (t.kids e)
  unfolding children
  walk-kids e h =
      sym (
        ap (λ res. res >>= (λ c. walk storage fuel c.first r))
          (get_component-Stores storage e w.0 h))
      ∙ (children-kids storage r t e fuel w h (enough e)).0

  push_children-kids :
      (e : ℕ) (stack : List ℕ)
      → t.has e ≡ true
      → push_children storage fuel e stack r ≡ ok (t.kids e ++ stack)
  unfolding push_children
  push_children-kids e stack h =
      ap
        (λ res. res >>= (λ c.
          if c.children == 0
          then ok stack
          else (walk storage fuel c.first r >>= λ temp. ok (temp ++ stack))))
        (get_component-Stores storage e w.0 h)
      ∙ push_all (t.kids e) stack (walk storage fuel (head (t.kids e)) r) (walk-kids e h)

  abbrev from : ℕ → List ℕ → Result (List ℕ)
  from n stack = advance_to_next storage fuel stack r >>= visit storage fuel n r

  from_step :
      (n e : ℕ) (stack : List ℕ)
      → t.has e ≡ true
      → from (suc n) (e ∷ stack) ≡ prepend (e ∷ []) (from n (t.kids e ++ stack))
  unfolding advance_to_next visit
  from_step n e stack h =
      ap
        (λ res.
          (res >>= λ pushed. ok (record { current = some e; stack = pushed }))
          >>= visit storage fuel (suc n) r)
        (push_children-kids e stack h)
      ∙ sym (
          bind_assoc (advance_to_next storage fuel (t.kids e ++ stack) r) (visit storage fuel n r)
            (λ ys. ok (e ∷ ys)))

  abbrev IsBelow : ℕ → ℕ → Type 0
  IsBelow depth e = (t.has e ≡ true) × (rank e < depth)

  kids-IsBelow : (depth e : ℕ) → rank e < suc depth → Each (IsBelow depth) (t.kids e)
  kids-IsBelow depth e h =
      Each-count (IsBelow depth) (t.kids e)
        (λ k c. (kid_has t w.1 e k c, less k (ranked k e (kid_parent t w.1 e k c))))
    where
      less : (k : ℕ) → rank k < rank e → rank k < depth
      less k l = omega arith

  visits :
      (depth n : ℕ) (es rest : List ℕ)
      → Each (IsBelow depth) es
      → from (length (preorder depth t.kids es) + n) (es ++ rest)
        ≡ prepend (preorder depth t.kids es) (from n rest)
  visits depth n [] rest h =
      ap (λ xs. from (length xs + n) rest) (preorder_nil depth t.kids)
      ∙ ap (λ m. from m rest) (zero_add n)
      ∙ sym (prepend_nil (from n rest))
      ∙ ap (λ xs. prepend xs (from n rest)) (sym (preorder_nil depth t.kids))
  visits zero n (e ∷ es) rest h = absurd (none_below (rank e) h.0.1)
  visits (suc depth) n (e ∷ es) rest ((k, l), h) =
      let below = preorder depth t.kids (t.kids e) in
      let others = preorder (suc depth) t.kids es in
      let steps : suc (length (below ++ others)) + n ≡ suc (length below + (length others + n)) =
        omega (arith, length-append below others) in
      ap (λ m. from m (e ∷ es ++ rest)) steps
      ∙ from_step (length below + (length others + n)) e (es ++ rest) k
      ∙ ap (prepend (e ∷ []))
          (visits depth (length others + n) (t.kids e) (es ++ rest) (kids-IsBelow depth e l))
      ∙ ap (λ res. prepend (e ∷ []) (prepend below res)) (visits (suc depth) n es rest h)
      ∙ sym (prepend-append (e ∷ []) below (prepend others (from n rest)))
      ∙ sym (prepend-append (e ∷ below) others (from n rest))

visit-none :
    (storage : ComponentStorage) (fuel n : ℕ) (r : storage.Registry)
    → visit storage fuel n r (record { current = none; stack = [] }) ≡ ok []
unfolding visit
visit-none storage fuel zero r = refl
visit-none storage fuel (suc n) r = refl

-- Where the registry holds a forest without cycles (`rank` is less for a child than for its parent),
-- an entity has a component, and the loops may run for as many children as there are: the loop over
-- `descendants()` visits the descendants of the entity in preorder, each once, and then ends.
pub descendants-preorder :
    (storage : ComponentStorage) (fuel : ℕ) (r : storage.Registry) (t : Forest) (e more : ℕ)
    (rank : ℕ → ℕ)
    → Represents storage r t
    → t.has e ≡ true
    → ((p : ℕ) → length (t.kids p) ≤ fuel)
    → ((j p : ℕ) → t.parent j ≡ some p → rank j < rank p)
    → let below = preorder (rank e) t.kids (t.kids e) in
      descendants storage fuel (length below + more) e r ≡ ok below
unfolding descendants begin advance_to_next
descendants-preorder storage fuel r t e more rank w h enough ranked =
    let below = preorder (rank e) t.kids (t.kids e) in
    ap
      (λ res.
        (res >>= λ pushed. advance_to_next storage fuel pushed r)
        >>= visit storage fuel (length below + more) r)
      (push_children-kids storage fuel r t w enough rank ranked e [] h)
    ∙ visits storage fuel r t w enough rank ranked (rank e) more (t.kids e) []
        (kids-IsBelow storage fuel r t w enough rank ranked (rank e) e (omega arith))
    ∙ ap (prepend below) (visit-none storage fuel more r)
    ∙ ap ok (append_nil below)
