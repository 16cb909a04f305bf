-- ===== src/Buffers/Writing.antt =====
-- What the writes of a `BufferStreamWriter` leave in its buffer.
use portal_framework.Base.{
  ◌⊎◌, ◌==◌, sym, false, length-drop, ℕ, zero, suc, ◌+◌, ◌-◌, ◌%◌, ◌^◌, ◌≤◌, ◌<◌, ◌≡◌, refl, ap,
  ◌∙◌, subst, List, [], ◌∷◌, ◌++◌, length, length-append, length-take, take, drop, ok, ltb, arith,
  Bool-cases, inl, inr,
}
use portal_framework.Serialization.Binary.Bytes.{take-append}
use portal_framework.Buffers.{
  Memory, owned, is_borrowed, fill, resize, bump, copy_to, BufferStreamWriter, create, get_buffer,
  grow, place, overflow, xsputn, put, grown_size,
}

length-fill : (garbage : ℕ → ℕ) (n : ℕ) → length (fill garbage n) ≡ n
length-fill garbage zero = refl
length-fill garbage (suc n) = ap suc (length-fill garbage n)

module _ {ℓ} {A : Type ℓ} where
  -- A part of the first list, and all of it with a part of the second.
  take-append-le : (n : ℕ) (xs ys : List A) → n ≤ length xs → take n (xs ++ ys) ≡ take n xs
  take-append-le zero xs ys le = refl
  take-append-le (suc n) [] ys le = absurd (omega arith)
  take-append-le (suc n) (x ∷ xs) ys le = ap (λ zs. x ∷ zs) (take-append-le n xs ys (omega arith))

  take-take : (m n : ℕ) (xs : List A) → m ≤ n → take m (take n xs) ≡ take m xs
  take-take zero n xs le = refl
  take-take (suc m) zero xs le = absurd (omega arith)
  take-take (suc m) (suc n) [] le = refl
  take-take (suc m) (suc n) (x ∷ xs) le = ap (λ zs. x ∷ zs) (take-take m n xs (omega arith))

  pub take-whole : (xs : List A) → take (length xs) xs ≡ xs
  take-whole [] = refl
  take-whole (x ∷ xs) = ap (λ zs. x ∷ zs) (take-whole xs)

-- A larger size, of memory that is not borrowed: the bytes below the old size are kept.
pub resize-larger :
    (garbage : ℕ → ℕ) (n p : ℕ) (m : Memory) (b : List ℕ)
    → is_borrowed m ≡ false
    → p ≤ length b
    → length b < n
    → (m' : Memory) × (b' : List ℕ) × (resize garbage n m b ≡ ok (m', b'))
      × (is_borrowed m' ≡ false)
      × (length b' ≡ n)
      × (take p b' ≡ take p b)
unfolding resize
resize-larger garbage zero p m b mine le lt = absurd (omega arith)
resize-larger garbage (suc k) p m b mine le lt =
    let n : ℕ = suc k in
    let more : List ℕ = fill garbage (n - length b) in
    let differs : (n == length b) ≡ false = ground arith in
    let size : length (take n b ++ more) ≡ n =
      omega (
        arith,
        length-append (take n b) more,
        length-take n b,
        length-fill garbage (n - length b),
      ) in
    let room : p ≤ length (take n b) = omega (arith, length-take n b) in
    let kept : take p (take n b ++ more) ≡ take p b =
      take-append-le p (take n b) more room ∙ take-take p n b (omega arith) in
    (owned, take n b ++ more, rw (differs, mine) refl, refl, size, kept)

pub bump-small : (n p : ℕ) → n < 2 ^ 31 → bump n p ≡ ok (p + n)
unfolding bump
bump-small n p lt = let same : n % 2 ^ 32 ≡ n = omega arith in rw same (ground arith)

-- A writer whose put pointer stands in its buffer, behind these bytes. Memory that is borrowed has room
-- for all that is to be written.
pub record HasWritten (total : ℕ) (w : BufferStreamWriter) (out : List ℕ) : Type 0 where
  pub free : (is_borrowed w.memory ≡ false) ⊎ (total ≤ length w.buffer)
  pub content : get_buffer w ≡ out
  pub reached : w.position ≡ length out
  pub inside : w.position ≤ length w.buffer

pub create-HasWritten :
    (total : ℕ) (m : Memory) (b : List ℕ)
    → (is_borrowed m ≡ false) ⊎ (total ≤ length b)
    → HasWritten total (create m b) []
create-HasWritten total m b free = record {
  free = free;
  content = refl;
  reached = refl;
  inside = omega arith;
}

module _ (garbage : ℕ → ℕ) (total : ℕ) (small : total < 2 ^ 31) where
  grow-HasWritten :
      (n : ℕ) (w : BufferStreamWriter) (out : List ℕ)
      → HasWritten total w out
      → length w.buffer < n
      → n ≤ total
      → w.position ≤ n
      → (w' : BufferStreamWriter) × ((grow garbage n w ≡ ok w')
          × ((HasWritten total w' out) × (n ≤ length w'.buffer)))
  unfolding grow
  grow-HasWritten n w out h full le pos =
      let size : ℕ = grown_size n (length w.buffer) in
      let enough : n ≤ size = ground arith in
      let mine : is_borrowed w.memory ≡ false = elim h.free [
        | inl mine ↦ mine
        | inr room ↦ absurd (omega arith)
      ] in
      let (m', b', resized, mine', larger, kept) =
        resize-larger garbage size w.position w.memory w.buffer mine h.inside (omega arith) in
      let same : 0 + w.position ≡ w.position = omega arith in
      let moved : bump w.position 0 ≡ ok w.position =
        bump-small w.position 0 (omega arith) ∙ ap ok same in
      (
        record { memory = m'; buffer = b'; position = w.position },
        (
          rw (resized, moved) refl,
          (
            record {
              free = inl mine';
              content = kept ∙ h.content;
              reached = h.reached;
              inside = omega arith;
            },
            omega arith,
          ),
        ),
      )

  copy_to-room :
      (p : ℕ) (s b : List ℕ)
      → p + length s ≤ length b
      → copy_to p s b ≡ ok (take p b ++ s ++ drop (p + length s) b)
  unfolding copy_to
  copy_to-room p s b le = ground arith

  append-HasWritten :
      (w : BufferStreamWriter) (out s : List ℕ)
      → HasWritten total w out
      → w.position + length s ≤ length w.buffer
      → HasWritten total
          (record w {
            buffer = take w.position w.buffer ++ s ++ drop (w.position + length s) w.buffer;
            position = w.position + length s;
          })
          (out ++ s)
  append-HasWritten w out s h le =
      let rest : List ℕ = drop (w.position + length s) w.buffer in
      let first : List ℕ = take w.position w.buffer in
      let size : length first ≡ w.position = omega (arith, length-take w.position w.buffer) in
      let both : length (first ++ s) ≡ w.position + length s =
        omega (arith, length-append first s) in
      let taken : take (w.position + length s) (first ++ s ++ rest) ≡ first ++ s =
        subst (λ n. take n (first ++ s ++ rest) ≡ first ++ s) both
          (take-append (first ++ s) rest) in
      let whole : length (first ++ s ++ rest) ≡ length w.buffer =
        omega
          (arith, length-append (first ++ s) rest, length-drop (w.position + length s) w.buffer) in
      record {
        free = subst (λ n. (is_borrowed w.memory ≡ false) ⊎ (total ≤ n)) (sym whole) h.free;
        content = taken ∙ ap (λ t. t ++ s) h.content;
        reached = omega (arith, length-append out s);
        inside = omega (arith, length-append (first ++ s) rest);
      }

  -- The bytes are copied behind the others where there is room for them.
  room-HasWritten :
      (s : List ℕ) (w : BufferStreamWriter) (out : List ℕ)
      → HasWritten total w out
      → length s ≤ total
      → w.position + length s ≤ length w.buffer
      → (w' : BufferStreamWriter) × ((place s w ≡ ok w') × HasWritten total w' (out ++ s))
  unfolding place
  room-HasWritten s w out h lt le = (
    _,
    (
      rw (copy_to-room w.position s w.buffer le, bump-small (length s) w.position (omega arith)),
      append-HasWritten w out s h le,
    ),
  )

  pub xsputn-HasWritten :
      (s : List ℕ) (w : BufferStreamWriter) (out : List ℕ)
      → HasWritten total w out
      → length out + length s ≤ total
      → (w' : BufferStreamWriter) × ((xsputn garbage s w ≡ ok w') × HasWritten total w' (out ++ s))
  unfolding xsputn
  xsputn-HasWritten s w out h lt =
      elim (Bool-cases (ltb (length w.buffer) (w.position + length s))) [
        | inl full ↦
            let (w1, (grown, (h1, room))) =
              grow-HasWritten (w.position + length s) w out h (ground arith)
                (omega (arith, h.reached)) (omega arith) in
            let fits : w1.position + length s ≤ length w1.buffer =
              omega (arith, h1.reached, h.reached) in
            let (w2, (copied, h2)) = room-HasWritten s w1 out h1 (omega arith) fits in
            (w2, (rw (full, grown) copied, h2))
        | inr roomy ↦
            let fits : w.position + length s ≤ length w.buffer = ground arith in
            let (w2, (copied, h2)) = room-HasWritten s w out h (omega arith) fits in
            (w2, (rw roomy copied, h2))
      ]

  -- `put` writes one byte, at the end of the put area through `overflow`.
  pub put-HasWritten :
      (ch : ℕ) (w : BufferStreamWriter) (out : List ℕ)
      → HasWritten total w out
      → length out + 1 ≤ total
      → (w' : BufferStreamWriter) × ((put garbage ch w ≡ ok w')
          × HasWritten total w' (out ++ (ch ∷ [])))
  unfolding put overflow
  put-HasWritten ch w out h lt = elim (Bool-cases (ltb w.position (length w.buffer))) [
    | inl roomy ↦
        let fits : w.position + 1 ≤ length w.buffer = ground arith in
        let (w2, (copied, h2)) = room-HasWritten (ch ∷ []) w out h (omega arith) fits in
        (w2, (rw roomy copied, h2))
    | inr full ↦
        let (w1, (grown, (h1, room))) =
          grow-HasWritten (w.position + 1) w out h (ground arith) (omega (arith, h.reached))
            (omega arith) in
        let fits : w1.position + 1 ≤ length w1.buffer = omega (arith, h1.reached, h.reached) in
        let (w2, (copied, h2)) = room-HasWritten (ch ∷ []) w1 out h1 (omega arith) fits in
        (w2, (rw (full, grown) copied, h2))
  ]
