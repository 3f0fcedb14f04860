-- ===== src/Abi.antt =====
-- sdk/abi_type.go: the types of the contract call codec (sdk/abi_encode.go, sdk/abi_decode.go), their
-- sizes, and the Go values that the codec takes and returns.
pub mod Words
pub mod Format
pub mod Hex
pub mod Encode
pub mod Decode
pub mod Spec
pub mod Sizes
pub mod Encoding
pub mod Reads
pub mod Tuples
pub mod Cases
pub mod RoundTrip
pub mod Safe
pub mod Typed
pub mod Soundness
mod Tests
use hiero_sdk_go.Base.{
  ℕ, suc, ◌+◌, ◌*◌, Bool, true, false, not, ◌||◌, ◌==◌, if◌then◌else◌, Option, none, some, List,
}
use hiero_sdk_go.Base.Int.{ℤ}
use hiero_sdk_go.Base.Text.{Text, text_eq}

-- `Type`, a constructor for each kind with the fields that the kind uses; `KindFixedPoint`, which no
-- code builds, has none. `TupleElem` holds a name, a type and the mark `indexed`.
mutual
  pub data AbiType : Type 0 where
    bool_type string_type address_type bytes_type function_type : AbiType
    uint_type int_type fixed_bytes_type : ℕ → AbiType
    array_type : ℕ → AbiType → AbiType
    slice_type : AbiType → AbiType
    tuple_type : TupleElems → AbiType

  pub data TupleElems : Type 0 where
    no_elems : TupleElems
    tuple_elem : Text → AbiType → Bool → TupleElems → TupleElems

-- The Go values that the codec meets, by their reflected kind: an unsigned or signed integer of a
-- width, a `*big.Int`, a string, a slice, an array, and a map from strings as the list of its
-- entries. Bytes are unsigned integers of width 8.
mutual
  pub data Value : Type 0 where
    bool : Bool → Value
    uint : ℕ → ℕ → Value
    int : ℕ → ℤ → Value
    big_int : ℤ → Value
    string : Text → Value
    slice array : Values → Value
    go_map : Fields → Value

  pub data Values : Type 0 where
    no_values : Values
    value : Value → Values → Values

  pub data Fields : Type 0 where
    no_fields : Fields
    field : Text → Value → Fields → Fields

-- What a call comes to: a result, an error, or a panic.
pub data Result {ℓ} (A : Type ℓ) : Type ℓ where
  ok : A → Result A
  failed : Result A
  panicked : Result A

infixl 5 ◌>>=◌
abbrev pub ◌>>=◌ {ℓ κ} : {A : Type ℓ} {B : Type κ} → Result A → (A → Result B) → Result B
ok a >>= f = f a
failed >>= f = failed
panicked >>= f = panicked

abbrev pub ok_or_failed {ℓ} : {A : Type ℓ} → Option A → Result A
ok_or_failed none = failed
ok_or_failed (some a) = ok a

abbrev pub values_length : Values → ℕ
values_length no_values = 0
values_length (value v vs) = suc (values_length vs)

abbrev pub fields_length : Fields → ℕ
fields_length no_fields = 0
fields_length (field n v fs) = suc (fields_length fs)

abbrev pub elems_length : TupleElems → ℕ
elems_length no_elems = 0
elems_length (tuple_elem n e x es) = suc (elems_length es)

-- `m[name]`
unfoldable pub map_index : Text → Fields → Option Value
map_index name no_fields = none
map_index name (field n v fs) = if text_eq name n then some v else map_index name fs

-- `isVariableInput`
unfoldable pub is_variable_input : AbiType → Bool
is_variable_input (slice_type e) = true
is_variable_input bytes_type = true
is_variable_input string_type = true
is_variable_input _ = false

-- `isDynamicType`
unfoldable mutual
  pub is_dynamic_type : AbiType → Bool
  is_dynamic_type string_type = true
  is_dynamic_type bytes_type = true
  is_dynamic_type (slice_type e) = true
  is_dynamic_type (array_type n e) = is_dynamic_type e
  is_dynamic_type (tuple_type es) = has_dynamic_elem es
  is_dynamic_type _ = false

  pub has_dynamic_elem : TupleElems → Bool
  has_dynamic_elem no_elems = false
  has_dynamic_elem (tuple_elem n e x es) = is_dynamic_type e || has_dynamic_elem es

-- `t.elem.kind == KindArray || t.elem.kind == KindTuple`
abbrev pub is_composite : AbiType → Bool
is_composite (array_type n e) = true
is_composite (tuple_type es) = true
is_composite _ = false

-- `getTypeSize`, and its sum over the elements of a tuple.
unfoldable mutual
  pub get_type_size : AbiType → ℕ
  get_type_size (array_type n e) =
      if is_dynamic_type e then 32 else if is_composite e then n * get_type_size e else n * 32
  get_type_size (tuple_type es) = if has_dynamic_elem es then 32 else elems_size es
  get_type_size _ = 32

  pub elems_size : TupleElems → ℕ
  elems_size no_elems = 0
  elems_size (tuple_elem n e x es) = get_type_size e + elems_size es

-- The integer types that have a Go type of their own; a `*big.Int` stands for the others.
unfoldable pub is_native : ℕ → Bool
is_native s = s == 8 || s == 16 || s == 32 || s == 64
