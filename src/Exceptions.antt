-- ===== src/Exceptions.antt =====
-- src/lib/exceptions/exceptions.h and the SerializationError of src/lib/map_reader/blob_reader.cc:
-- what a call throws, as a value. The text of a message is kept as the data that it is made of.
use Prim.Native.String.{String}
use minetest_map_analyzer.Prelude.{ℕ, List, ◌≡◌, refl, ap, Option, none, some, ◌⊎◌, inl, inr}

-- The `extra` text of a SerializationError, with the values that it prints.
pub data Extra : Type 0 where
  size_check : ℕ → Extra
  garbage no_newline inflate_init list_name_empty : Extra
  zlib_error zstd_error : ℕ → Extra
  junk_string : List ℕ → Extra
  private_value : ℕ → Extra
  unsupported_version unsupported_content_width unsupported_params_width : ℕ → Extra
  wrong_node_bytes : ℕ → Extra
  unsupported_meta_version invalid_meta_pos : ℕ → Extra
  unsupported_nim_version illegal_nim_id unsupported_object_version : ℕ → Extra
  left_over : List ℕ → Extra

-- The fields are those that the constructor's message shows.
pub record SerializationError : Type 0 where
  pub desc : String
  pub size : ℕ
  pub offset : ℕ
  pub remaining : ℕ
  pub extra : Extra

-- `out_of_range` is the std::out_of_range of a vector's `at`, and `sqlite3_error` the Sqlite3Error of the
-- wrappers around sqlite3. `undefined` is no exception: it marks
-- an access outside a vector or through a null pointer, of which C++ says nothing. `out_of_fuel` is
-- no behaviour of the program: a loop of the model ran out of rounds.
pub data Exception : Type 0 where
  serialization : SerializationError → Exception
  out_of_range : Exception
  sqlite3_error : Exception
  undefined : Exception
  out_of_fuel : Exception

pub data Result {ℓ} (A : Type ℓ) : Type ℓ where
  ok : A → Result A
  throw : Exception → Result A

abbrev pub bind_result {ℓ κ} : {A : Type ℓ} {B : Type κ} → Result A → (A → Result B) → Result B
bind_result (ok a) f = f a
bind_result (throw e) f = throw e

abbrev ok_value {ℓ} : {A : Type ℓ} → A → Result A → A
ok_value d (ok a) = a
ok_value d (throw e) = d

pub ok-injective {ℓ} : {A : Type ℓ} {a b : A} → ok a ≡ ok b → a ≡ b
ok-injective {a} h = ap (ok_value a) h

pub Result-cases {ℓ} :
    {A : Type ℓ} (o : Result A) → ((a : A) × (o ≡ ok a)) ⊎ ((e : Exception) × (o ≡ throw e))
Result-cases (ok a) = inl (a, refl)
Result-cases (throw e) = inr (e, refl)

-- std::vector::at, on what stands at the index.
abbrev pub or_out_of_range {ℓ} : {A : Type ℓ} → Option A → Result A
or_out_of_range none = throw out_of_range
or_out_of_range (some a) = ok a

-- `operator[]` of a vector, which checks nothing.
abbrev pub or_undefined {ℓ} : {A : Type ℓ} → Option A → Result A
or_undefined none = throw undefined
or_undefined (some a) = ok a

-- A chain that returned has returned in each part.
pub bind_result-ok {ℓ κ} :
    {A : Type ℓ} {B : Type κ} (o : Result A) (f : A → Result B) {b : B}
    → bind_result o f ≡ ok b
    → (a : A) × (o ≡ ok a) × (f a ≡ ok b)
bind_result-ok (ok a) f h = (a, refl, h)
bind_result-ok (throw e) f h = cc

-- What no catch clause of a consumer takes: anything but a SerializationError.
abbrev pub IsUncaught : Exception → Type 0
IsUncaught (serialization e) = ⊥
IsUncaught out_of_range = Unit
IsUncaught sqlite3_error = Unit
IsUncaught undefined = Unit
IsUncaught out_of_fuel = Unit

-- The call returns a value of `P`, or throws what a consumer does not catch.
abbrev pub Ends {ℓ} : {A : Type ℓ} → (A → Type 0) → Result A → Type 0
Ends P (ok a) = P a
Ends P (throw e) = IsUncaught e

pub Ends-bind_result {ℓ κ} :
    {A : Type ℓ} {B : Type κ} (P : A → Type 0) (Q : B → Type 0) (m : Result A) (f : A → Result B)
    → Ends P m
    → ((a : A) → P a → Ends Q (f a))
    → Ends Q (bind_result m f)
Ends-bind_result P Q (ok a) f h k = k a h
Ends-bind_result P Q (throw e) f h k = h

abbrev pub Any {ℓ} : {A : Type ℓ} → A → Type 0
Any a = Unit

pub Ends-or_out_of_range {ℓ} : {A : Type ℓ} (o : Option A) → Ends Any (or_out_of_range o)
Ends-or_out_of_range none = tt
Ends-or_out_of_range (some a) = tt

pub Ends-or_undefined {ℓ} : {A : Type ℓ} (o : Option A) → Ends Any (or_undefined o)
Ends-or_undefined none = tt
Ends-or_undefined (some a) = tt
