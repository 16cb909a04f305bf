-- ===== src/Serialization/Values.antt =====
-- serialization/portal/serialization/serialize.h: what `add_value` of `Serializer` writes for each
-- kind of value, and what `get_value` of `Deserializer` reads, over the binary format. The
-- overloads are told apart by the shape of the value's type. A number is the list of its bytes.
-- `PORTAL_ASSERT` ends the call with an error.
pub mod Reading
pub mod Compound
pub mod Appending
pub mod RoundTrip
pub mod Blobs
mod Tests
use portal_framework.Base.{
  map, ltb, ◌*◌, min, ℕ, zero, suc, ◌+◌, ◌-◌, Bool, true, false, Option, none, some, List, [], ◌∷◌,
  ◌++◌, length, take, drop, Result, ok, err, Error, ◌==◌, ◌&&◌, if◌then◌else◌, ◌>>=◌,
}
use portal_framework.Serialization.Property.{
  PropertyType, PropertyContainerType, Property, type_code, container_code,
}
use portal_framework.Serialization.Binary.{
  BinarySerializationParams, BinaryDeserializer, add_property, get_property, get_size, to_bytes,
  of_bytes,
}

-- The types of values: numbers of a property type (also enumerations, through their underlying type,
-- and `StringId`, through its number), vectors of numbers, strings, GLM vectors and matrices with
-- their number of elements, vectors of other values (enumerations and `StringId` among them), maps,
-- optional values, and the fields of an aggregate, one after another.
pub data Shape : Type 0 where
  scalar : PropertyType → Shape
  array : PropertyType → Shape
  text : Shape
  vec matrix : PropertyType → ℕ → Shape
  sequence : Shape → Shape
  map_of : Shape → Shape → Shape
  optional : Shape → Shape
  no_fields : Shape
  fields : Shape → Shape → Shape

-- `IsVec` or `IsMatrix`: vectors of these are written like vectors of numbers, with the type `binary`.
abbrev pub is_packed : Shape → Bool
is_packed (vec t n) = true
is_packed (matrix t n) = true
is_packed s = false

-- `sizeof` of a GLM vector or matrix.
abbrev pub size_of : Shape → ℕ
size_of (vec t n) = n * get_size t
size_of (matrix t n) = n * get_size t
size_of s = 0

-- A map is the list of its entries, as it is iterated, or as they are assigned.
unfoldable pub Value : Shape → Type 0
Value (scalar t) = List ℕ
Value (array t) = List (List ℕ)
Value text = List ℕ
Value (vec t n) = List ℕ
Value (matrix t n) = List ℕ
Value (sequence s) = List (Value s)
Value (map_of k v) = List (Value k × Value v)
Value (optional s) = Option (Value s)
Value no_fields = Unit
Value (fields s r) = Value s × Value r

-- The bytes of a GLM vector or matrix in memory, and a vector of these that is made of bytes.
abbrev pub memory_of : (s : Shape) → Value s → List ℕ
unfolding Value
memory_of (vec t n) v = v
memory_of (matrix t n) v = v
memory_of s v = []

abbrev pub concat : List (List ℕ) → List ℕ
concat [] = []
concat (xs ∷ xss) = xs ++ concat xss

abbrev pub scalar_property : PropertyType → List ℕ → Property
scalar_property t bytes = record {
  value = bytes;
  type = t;
  container_type = PropertyContainerType.scalar;
  elements_number = 1;
}

abbrev pub array_property : PropertyType → List (List ℕ) → Property
array_property t xs = record {
  value = concat xs;
  type = t;
  container_type = PropertyContainerType.array;
  elements_number = length xs;
}

-- The characters and the zero behind them.
abbrev pub text_property : List ℕ → Property
text_property characters = record {
  value = characters ++ (0 ∷ []);
  type = PropertyType.character;
  container_type = PropertyContainerType.null_term_string;
  elements_number = length characters + 1;
}

abbrev pub packed_property : PropertyContainerType → PropertyType → ℕ → List ℕ → Property
packed_property c t n bytes = record {
  value = bytes;
  type = t;
  container_type = c;
  elements_number = n;
}

abbrev pub bool_bytes : Bool → List ℕ
bool_bytes true = 1 ∷ []
bool_bytes false = 0 ∷ []

-- The loops over the elements of a vector and the entries of a map.
abbrev pub add_each {ℓ} : {A : Type ℓ} → (A → List ℕ → List ℕ) → List A → List ℕ → List ℕ
add_each add [] output = output
add_each add (x ∷ xs) output = add_each add xs (add x output)

module _ (params : BinarySerializationParams) where
  -- `add_value(size)` for a `size_t`
  unfoldable pub add_size : ℕ → List ℕ → List ℕ
  add_size n output =
      add_property params (scalar_property PropertyType.integer64 (to_bytes 8 n)) output

  -- `add_value` of a `bool`, whose property type is that of an integer of one byte.
  abbrev pub add_flag : Bool → List ℕ → List ℕ
  add_flag b output =
      add_property params (scalar_property PropertyType.integer8 (bool_bytes b)) output

  unfoldable pub add_value : (s : Shape) → Value s → List ℕ → List ℕ
  unfolding Value
  add_value (scalar t) v output = add_property params (scalar_property t v) output
  add_value (array t) v output = add_property params (array_property t v) output
  add_value text v output = add_property params (text_property v) output
  add_value (vec t n) v output =
      add_property params (packed_property PropertyContainerType.vector t n v) output
  add_value (matrix t n) v output =
      add_property params (packed_property PropertyContainerType.matrix t n v) output
  add_value (sequence s) v output =
      if is_packed s
      then add_property params (array_property PropertyType.binary (map (memory_of s) v)) output
      else add_each (add_value s) v (add_size (length v) output)
  add_value (map_of k s) v output =
      add_each (λ e out. add_value s e.1 (add_value k e.0 out)) v (add_size (length v) output)
  add_value (optional s) none output = add_flag false output
  add_value (optional s) (some v) output = add_value s v (add_flag true output)
  add_value no_fields v output = output
  add_value (fields s r) v output = add_value r v.1 (add_value s v.0 output)

-- Reading: a value and the reader after it.
abbrev pub Reader {ℓ} : Type ℓ → Type ℓ
Reader A = BinaryDeserializer → Result (A × BinaryDeserializer)

abbrev pub has_tags : PropertyContainerType → PropertyType → Property → Bool
has_tags c t p =
    container_code p.container_type == container_code c && type_code p.type == type_code t

-- A property that must pass a test, and what is made of it.
abbrev pub get_checked {ℓ} : {A : Type ℓ} → (Property → Bool) → (Property → A) → Reader A
get_checked test f d = do
  (p, d') ← get_property d
  if test p then ok (f p, d') else err Error.assertion_failed

abbrev pub get_scalar : PropertyType → Reader (List ℕ)
get_scalar t =
    get_checked (λ p. has_tags PropertyContainerType.scalar t p && length p.value == get_size t)
      (λ p. p.value)

-- `n` elements of `k` bytes.
abbrev pub chunks : ℕ → ℕ → List ℕ → List (List ℕ)
chunks zero k bytes = []
chunks (suc n) k bytes = take k bytes ∷ chunks n k (drop k bytes)

abbrev pub string_length : Property → ℕ
string_length p =
    if container_code p.container_type == container_code PropertyContainerType.null_term_string
    then p.elements_number - 1
    else if container_code p.container_type == container_code PropertyContainerType.string
    then p.elements_number
    else 0

-- The loops that read `n` elements.
abbrev pub get_each {ℓ} : {A : Type ℓ} → ℕ → Reader A → Reader (List A)
get_each zero get d = ok ([], d)
get_each (suc n) get d = do (x, d1) ← get d; (xs, d2) ← get_each n get d1; ok (x ∷ xs, d2)

abbrev pub get_both {ℓ κ} : {A : Type ℓ} {B : Type κ} → Reader A → Reader B → Reader (A × B)
get_both get get' d = do (a, d1) ← get d; (b, d2) ← get' d1; ok ((a, b), d2)

abbrev pub get_sized {ℓ} : {A : Type ℓ} → Reader A → Reader (List A)
get_sized get d = do
  (size, d1) ← get_scalar PropertyType.integer64 d
  get_each (of_bytes size) get d1

-- A byte that is neither 0 nor 1 is no value of `bool`.
abbrev pub get_optional {ℓ} : {A : Type ℓ} → Reader A → Reader (Option A)
get_optional get d = do
  (flag, d1) ← get_scalar PropertyType.integer8 d
  if of_bytes flag == 0 then ok (none, d1) else (get d1 >>= λ r. ok (some r.0, r.1))

abbrev pub values_of : (s : Shape) → ℕ → List ℕ → List (Value s)
unfolding Value
values_of (vec t n) k bytes = chunks k (size_of (vec t n)) bytes
values_of (matrix t n) k bytes = chunks k (size_of (matrix t n)) bytes
values_of s k bytes = []

-- `T(data, data + array_length)`, which reads behind the property's bytes where these are too few.
abbrev pub get_packed_vector : (s : Shape) → Reader (List (Value s))
get_packed_vector s d = do
  (p, d') ← get_property d
  if has_tags PropertyContainerType.array PropertyType.binary p
      then (if ltb (length p.value) (p.elements_number * size_of s)
          then err Error.undefined_access
          else ok (values_of s p.elements_number p.value, d'))
      else err Error.assertion_failed

-- A vector of values that are no numbers is appended to the out parameter, which is empty here.
unfoldable pub get_value : (s : Shape) → Reader (Value s)
unfolding Value
get_value (scalar t) = get_scalar t
get_value (array t) =
    get_checked (has_tags PropertyContainerType.array t)
      (λ p. chunks p.elements_number (get_size t) p.value)
get_value text =
    get_checked (λ p. type_code p.type == type_code PropertyType.character)
      (λ p. take (string_length p) p.value)
get_value (vec t n) =
    get_checked (λ p. has_tags PropertyContainerType.vector t p && p.elements_number == n)
      (λ p. p.value)
get_value (matrix t n) =
    get_checked (λ p. has_tags PropertyContainerType.matrix t p && p.elements_number == n)
      (λ p. p.value)
get_value (sequence s) = if is_packed s then get_packed_vector s else get_sized (get_value s)
get_value (map_of k s) = get_sized (get_both (get_value k) (get_value s))
get_value (optional s) = get_optional (get_value s)
get_value no_fields = λ d. ok (tt, d)
get_value (fields s r) = get_both (get_value s) (get_value r)

-- `add_value(void*, length)`
unfoldable pub add_blob : BinarySerializationParams → List ℕ → List ℕ → List ℕ
add_blob params bytes output =
    add_property params
      (record {
        value = bytes;
        type = PropertyType.binary;
        container_type = PropertyContainerType.string;
        elements_number = length bytes;
      })
      output

-- `get_value(char*&, length)`
unfoldable pub get_blob : ℕ → Reader (List ℕ)
get_blob n =
    get_checked
      (λ p. type_code p.type == type_code PropertyType.character && p.elements_number == n)
      (λ p. take (min n p.elements_number) p.value)
