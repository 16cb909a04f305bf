-- ===== src/Serialization/Values/Appending.antt =====
-- What `add_value` writes goes behind what is in the stream, and does not depend on it.
use portal_framework.Base.{
  Bool-cases, inl, inr, ℕ, ◌≡◌, refl, sym, ap, ◌∙◌, true, none, some, List, [], ◌∷◌, ◌++◌, length,
}
use mathlib.Core.List.{append_assoc}
use portal_framework.Serialization.Property.{Property}
use portal_framework.Serialization.Binary.{BinarySerializationParams, add_property}
use portal_framework.Serialization.Binary.Bytes.{append-nil}
use portal_framework.Serialization.Values.{
  is_packed, Shape, scalar, array, text, vec, matrix, sequence, map_of, optional, no_fields, fields,
  Value, add_each, add_size, add_flag, add_value,
}
use portal_framework.Serialization.Values.Reading.{all_written}

-- A writer that only appends, always the same bytes.
abbrev pub Appends : (List ℕ → List ℕ) → Type 0
Appends f = (output : List ℕ) → f output ≡ output ++ f []

pub then-Appends : (f g : List ℕ → List ℕ) → Appends f → Appends g → Appends (λ o. g (f o))
then-Appends f g hf hg output =
    hg (f output)
    ∙ ap (λ o. o ++ g []) (hf output)
    ∙ append_assoc output (f []) (g [])
    ∙ ap (λ o. output ++ o) (sym (hg (f [])))

nothing-Appends : Appends (λ o. o)
nothing-Appends output = sym (append-nil output)

add_each-Appends {ℓ} :
    {A : Type ℓ} (add : A → List ℕ → List ℕ) (xs : List A)
    → ((x : A) → Appends (add x))
    → Appends (add_each add xs)
add_each-Appends add [] h = nothing-Appends
add_each-Appends add (x ∷ xs) h =
    then-Appends (add x) (add_each add xs) (h x) (add_each-Appends add xs h)

pub add_each-all_written {ℓ} :
    {A : Type ℓ} (add : A → List ℕ → List ℕ) (xs : List A)
    → ((x : A) → Appends (add x))
    → add_each add xs [] ≡ all_written (λ x. add x []) xs
add_each-all_written add [] h = refl
add_each-all_written add (x ∷ xs) h =
    add_each-Appends add xs h (add x []) ∙ ap (λ o. add x [] ++ o) (add_each-all_written add xs h)

module _ (params : BinarySerializationParams) where
  add_property-Appends : (p : Property) → Appends (add_property params p)
  unfolding add_property
  add_property-Appends p output = refl

  pub add_value-Appends : (s : Shape) (v : Value s) → Appends (add_value params s v)
  unfolding add_value add_size Value
  add_value-Appends (scalar t) v = add_property-Appends _
  add_value-Appends (array t) v = add_property-Appends _
  add_value-Appends text v = add_property-Appends _
  add_value-Appends (vec t n) v = add_property-Appends _
  add_value-Appends (matrix t n) v = add_property-Appends _
  add_value-Appends (sequence s) v =
      let each =
        then-Appends (add_size params (length v)) (add_each (add_value params s) v)
          (add_property-Appends _)
          (add_each-Appends (add_value params s) v (add_value-Appends s)) in
      elim (Bool-cases (is_packed s)) [
        | inl packed ↦ λ output. rw packed (add_property-Appends _ output)
        | inr plain ↦ λ output. rw plain (each output)
      ]
  add_value-Appends (map_of k s) v =
      let entry : Value k × Value s → List ℕ → List ℕ =
        λ e o. add_value params s e.1 (add_value params k e.0 o) in
      then-Appends (add_size params (length v)) (add_each entry v) (add_property-Appends _) (
        add_each-Appends entry v (λ e.
          then-Appends (add_value params k e.0) (add_value params s e.1) (add_value-Appends k e.0)
            (add_value-Appends s e.1)))
  add_value-Appends (optional s) none = add_property-Appends _
  add_value-Appends (optional s) (some v) =
      then-Appends (add_flag params true) (add_value params s v) (add_property-Appends _)
        (add_value-Appends s v)
  add_value-Appends no_fields v = nothing-Appends
  add_value-Appends (fields s r) v =
      then-Appends (add_value params s v.0) (add_value params r v.1) (add_value-Appends s v.0)
        (add_value-Appends r v.1)

  -- Two values, and a size with the elements behind it.
  pub add_both-written :
      (s r : Shape) (v : Value s) (w : Value r)
      → add_value params r w (add_value params s v [])
        ≡ add_value params s v [] ++ add_value params r w []
  add_both-written s r v w = add_value-Appends r w (add_value params s v [])

  pub add_sized-written {ℓ} :
      {A : Type ℓ} (add : A → List ℕ → List ℕ) (xs : List A) (n : ℕ)
      → ((x : A) → Appends (add x))
      → add_each add xs (add_size params n [])
        ≡ add_size params n [] ++ all_written (λ x. add x []) xs
  add_sized-written add xs n h =
      add_each-Appends add xs h (add_size params n [])
      ∙ ap (λ o. add_size params n [] ++ o) (add_each-all_written add xs h)
