-- ===== src/Serialization/Values/Compound.antt =====
-- Readers of numbers, sizes, flags, and of what stands behind these.
use portal_framework.Base.{
  ℕ, ◌^◌, ◌<◌, ◌≡◌, refl, sym, subst, Bool, true, false, none, some, inl, List, [], ◌++◌, length,
  ok, arith, ◌==◌, if◌then◌else◌, ◌>>=◌,
}
use portal_framework.Base.Ordered.{Each}
use portal_framework.Serialization.Property.{
  PropertyType, PropertyContainerType, type_code, container_code, type_of_code, container_of_code,
}
use portal_framework.Serialization.Binary.{
  BinarySerializationParams, add_property, get_size, to_bytes, of_bytes,
}
use portal_framework.Serialization.Binary.Bytes.{length-to_bytes, of_bytes-to_bytes}
use portal_framework.Serialization.Binary.RoundTrip.{IsStorable}
use portal_framework.Serialization.Values.{
  Reader, get_each, get_scalar, get_sized, get_optional, add_size, add_flag, bool_bytes,
  scalar_property,
}
use portal_framework.Serialization.Values.Reading.{
  Reads, all_written, get_checked-Reads, then-Reads, get_each-Reads, has_tags_self, eq_self,
}

module _ (params : BinarySerializationParams) where
  pub get_scalar-Reads :
      (t : PropertyType) (v : List ℕ)
      → IsStorable params (scalar_property t v)
      → Reads params (get_scalar t) (add_property params (scalar_property t v) []) v
  get_scalar-Reads t v s =
      let size : length v ≡ get_size t = omega (arith, s.sized) in
      get_checked-Reads params _ _ (scalar_property t v) s (
        rw (
          has_tags_self params PropertyContainerType.scalar t v 1,
          size,
          eq_self params (get_size t),
        ))

  pub size-IsStorable :
      (n : ℕ) → IsStorable params (scalar_property PropertyType.integer64 (to_bytes 8 n))
  unfolding type_code type_of_code container_code container_of_code get_size
  size-IsStorable n = record {
    named = refl;
    named_container = refl;
    sized = length-to_bytes 8 n;
    small = omega (arith, length-to_bytes 8 n);
    counted = inl (refl, refl);
  }

  pub flag-IsStorable :
      (b : Bool) → IsStorable params (scalar_property PropertyType.integer8 (bool_bytes b))
  unfolding type_code type_of_code container_code container_of_code get_size
  flag-IsStorable true = record {
    named = refl;
    named_container = refl;
    sized = refl;
    small = omega arith;
    counted = inl (refl, refl);
  }
  flag-IsStorable false = record {
    named = refl;
    named_container = refl;
    sized = refl;
    small = omega arith;
    counted = inl (refl, refl);
  }

  -- The elements behind their number.
  pub get_sized-Reads {ℓ} :
      {A : Type ℓ} (get : Reader A) (written : A → List ℕ) (xs : List A)
      → length xs < 2 ^ 64
      → Each (λ x. Reads params get (written x) x) xs
      → Reads params (get_sized get) (add_size params (length xs) [] ++ all_written written xs) xs
  unfolding add_size
  get_sized-Reads get written xs small all =
      let n = length xs in
      then-Reads params (get_scalar PropertyType.integer64) (λ size. get_each (of_bytes size) get)
        (get_scalar-Reads PropertyType.integer64 (to_bytes 8 n) (size-IsStorable n))
        (subst (λ k. Reads params (get_each k get) (all_written written xs) xs)
          (sym (of_bytes-to_bytes 8 n (omega arith))) (get_each-Reads params get written xs all))

  pub get_optional-none {ℓ} :
      {A : Type ℓ} (get : Reader A)
      → Reads params (get_optional get) (add_flag params false []) none
  get_optional-none get =
      let flag =
        get_scalar-Reads PropertyType.integer8 (bool_bytes false) (flag-IsStorable false) in
      record {
        reads =
            λ d rest same room. let (c, (le, e)) = flag.reads d rest same room in (c, (le, rw e));
      }

  pub get_optional-some {ℓ} :
      {A : Type ℓ} (get : Reader A) {bs : List ℕ} (a : A)
      → Reads params get bs a
      → Reads params (get_optional get) (add_flag params true [] ++ bs) (some a)
  get_optional-some get a r =
      let flag = get_scalar-Reads PropertyType.integer8 (bool_bytes true) (flag-IsStorable true) in
      then-Reads params (get_scalar PropertyType.integer8)
        (λ bits d1.
          if of_bytes bits == 0 then ok (none, d1) else (get d1 >>= λ v. ok (some v.0, v.1)))
        flag
        (record {
          reads =
              λ d rest same room. let (c, (le, e)) = r.reads d rest same room in (c, (le, rw e));
        })
