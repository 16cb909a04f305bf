-- ===== src/Serialization/Values/Reading.antt =====
-- Readers that take back what was written, and how they are put together.
use portal_framework.Base.{
  ℕ, ◌+◌, ◌≤◌, ◌≡◌, refl, sym, subst, Bool, true, List, [], ◌∷◌, ◌++◌, length, length-append, ok,
  arith, ◌==◌, ◌>>=◌,
}
use mathlib.Core.List.{append_assoc}
use portal_framework.Base.Ordered.{Each}
use portal_framework.Serialization.Property.{
  PropertyType, PropertyContainerType, Property, type_code, container_code,
}
use portal_framework.Serialization.Binary.{
  BinarySerializationParams, BinaryDeserializer, add_property, metadata,
}
use portal_framework.Serialization.Binary.RoundTrip.{IsStorable, get_property-add_property}
use portal_framework.Serialization.Values.{Reader, get_checked, get_each, get_both, has_tags}

-- What is written for each element, one after another.
abbrev pub all_written {ℓ} : {A : Type ℓ} → (A → List ℕ) → List A → List ℕ
all_written written [] = []
all_written written (x ∷ xs) = written x ++ all_written written xs

module _ (params : BinarySerializationParams) where
  -- Wherever a reader with these parameters finds `bytes`, and its buffer has room for them, `get`
  -- gives the value, and leaves what follows.
  pub record Reads {ℓ} {A : Type ℓ} (get : Reader A) (bytes : List ℕ) (value : A) : Type ℓ where
    pub reads :
        (d : BinaryDeserializer) (rest : List ℕ)
        → d.params ≡ params
        → d.cursor + length bytes ≤ d.size
        → (c : ℕ) × ((c ≤ d.cursor + length bytes)
            × (get (record d { input = bytes ++ rest })
                ≡ ok (value, record d { input = rest; cursor = c })))

  length-add_property : (p : Property) → length p.value ≤ length (add_property params p [])
  unfolding add_property
  length-add_property p = omega (arith, length-append (metadata params p) p.value)

  pub get_checked-Reads {ℓ} :
      {A : Type ℓ} (test : Property → Bool) (f : Property → A) (p : Property)
      → IsStorable params p
      → test p ≡ true
      → Reads (get_checked test f) (add_property params p []) (f p)
  get_checked-Reads test f p v passes = record {
    reads = λ d rest same room.
        let long = length-add_property p in
        let v' = subst (λ q. IsStorable q p) (sym same) v in
        (
          d.cursor + length p.value,
          (
            omega (arith, long),
            rw (
              sym same,
              get_property-add_property p rest d v' (omega (arith, long, room)),
              passes,
            ),
          ),
        );
  }

  pub get_both-Reads {ℓ κ} :
      {A : Type ℓ} {B : Type κ} {get : Reader A} {get' : Reader B} {bs cs : List ℕ} {a : A} {b : B}
      → Reads get bs a
      → Reads get' cs b
      → Reads (get_both get get') (bs ++ cs) (a, b)
  get_both-Reads {bs = bs} {cs = cs} r r' = record {
    reads = λ d rest same room.
        let sizes = length-append bs cs in
        let (c1, (le1, e1)) = r.reads d (cs ++ rest) same (omega (arith, sizes, room)) in
        let d1 = record d { cursor = c1 } in
        let (c2, (le2, e2)) = r'.reads d1 rest same (omega (arith, sizes, room, le1)) in
        (c2, (omega (arith, sizes, le1, le2), rw (append_assoc bs cs rest, e1, e2)));
  }

  -- One reader after another, the second chosen by what the first has found.
  pub then-Reads {ℓ κ} :
      {A : Type ℓ} {B : Type κ} (get : Reader A) (next : A → Reader B) {bs cs : List ℕ} {a : A}
      {b : B}
      → Reads get bs a
      → Reads (next a) cs b
      → Reads (λ d. get d >>= λ r. next r.0 r.1) (bs ++ cs) b
  then-Reads get next {bs = bs} {cs = cs} r r' = record {
    reads = λ d rest same room.
        let sizes = length-append bs cs in
        let (c1, (le1, e1)) = r.reads d (cs ++ rest) same (omega (arith, sizes, room)) in
        let d1 = record d { cursor = c1 } in
        let (c2, (le2, e2)) = r'.reads d1 rest same (omega (arith, sizes, room, le1)) in
        (c2, (omega (arith, sizes, le1, le2), rw (append_assoc bs cs rest, e1, e2)));
  }

  pub done-Reads {ℓ} : {A : Type ℓ} (a : A) → Reads (λ d. ok (a, d)) [] a
  done-Reads a = record { reads = λ d rest same room. (d.cursor, (omega arith, refl)) }

  pub get_each-Reads {ℓ} :
      {A : Type ℓ} (get : Reader A) (written : A → List ℕ) (xs : List A)
      → Each (λ x. Reads get (written x) x) xs
      → Reads (get_each (length xs) get) (all_written written xs) xs
  get_each-Reads get written [] all = done-Reads []
  get_each-Reads get written (x ∷ xs) (r, all) =
      let rest = get_each-Reads get written xs all in
      record {
        reads = λ d more same room.
            let bs = written x in
            let cs = all_written written xs in
            let sizes = length-append bs cs in
            let (c1, (le1, e1)) = r.reads d (cs ++ more) same (omega (arith, sizes, room)) in
            let (c2, (le2, e2)) =
              rest.reads (record d { cursor = c1 }) more same (omega (arith, sizes, room, le1)) in
            (c2, (omega (arith, sizes, le1, le2), rw (append_assoc bs cs more, e1, e2)));
      }

  pub eq_self : (n : ℕ) → (n == n) ≡ true
  eq_self n = ground arith

  pub has_tags_self :
      (c : PropertyContainerType) (t : PropertyType) (bytes : List ℕ) (n : ℕ)
      → has_tags c t (record { value = bytes; type = t; container_type = c; elements_number = n })
        ≡ true
  has_tags_self c t bytes n = rw (eq_self (container_code c), eq_self (type_code t))
