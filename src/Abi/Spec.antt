-- ===== src/Abi/Spec.antt =====
-- The contract ABI's own description of an encoding, for the values that sdk/abi_encode.go takes and
-- sdk/abi_decode.go returns: the parts of a sequence stand in their heads, or behind them with their
-- offset in the head. The formal specification is
-- https://docs.soliditylang.org/en/latest/abi-spec.html.
use hiero_sdk_go.Base.{
  ℕ, suc, ◌+◌, ◌-◌, ◌*◌, ◌/◌, ◌^◌, ◌≤◌, ◌<◌, ◌≡◌, Bool, true, false, none, List, [], ◌++◌,
  if◌then◌else◌, length,
}
use hiero_sdk_go.Base.Int.{ℤ, pos, pos_part, neg_part}
use hiero_sdk_go.Base.Text.{Text}
use hiero_sdk_go.Abi.{
  AbiType, TupleElems, bool_type, string_type, address_type, bytes_type, function_type, uint_type,
  int_type, fixed_bytes_type, array_type, slice_type, tuple_type, no_elems, tuple_elem, Value,
  Values, Fields, bool, uint, int, big_int, string, slice, array, go_map, no_values, value,
  no_fields, field, values_length, map_index, is_dynamic_type, is_native,
}
use hiero_sdk_go.Abi.Words.{word, zeros, u256}
use hiero_sdk_go.Abi.Encode.{elem_key}
use hiero_sdk_go.Abi.Decode.{bytes_values, snoc}

-- The integers of `w` bits in two's complement.
abbrev pub InRange : ℕ → ℤ → Type 0
InRange w z = (pos_part z < 2 ^ (w - 1)) × (neg_part z ≤ 2 ^ (w - 1))

-- `Fits t v`: the value `v` is one of the type `t`, in the form that the decoder returns. Arrays and
-- tuples have a part at least, fixed bytes fill a word at most, and an element of a tuple stands
-- under its own key. `TupleFits es i seen fs` reads the entries from position `i`, behind `seen`.
mutual
  pub data Fits : AbiType → Value → Type 0 where
    bool_fits : (b : Bool) → Fits bool_type (bool b)
    uint_fits : (s n : ℕ) → is_native s ≡ true → n < 2 ^ s → Fits (uint_type s) (uint s n)
    big_uint_fits :
        (s n : ℕ) → is_native s ≡ false → n < 2 ^ 256 → Fits (uint_type s) (big_int (pos n))
    int_fits : (s : ℕ) (z : ℤ) → is_native s ≡ true → InRange s z → Fits (int_type s) (int s z)
    big_int_fits :
        (s : ℕ) (z : ℤ) → is_native s ≡ false → InRange 256 z → Fits (int_type s) (big_int z)
    string_fits : (s : Text) → Fits string_type (string s)
    bytes_fits : (b : List ℕ) → Fits bytes_type (slice (bytes_values b))
    address_fits : (b : List ℕ) → length b ≡ 20 → Fits address_type (array (bytes_values b))
    fixed_bytes_fits :
        (s : ℕ) (b : List ℕ)
        → length b ≡ s
        → s ≤ 32
        → Fits (fixed_bytes_type s) (array (bytes_values b))
    function_fits : (b : List ℕ) → length b ≡ 24 → Fits function_type (array (bytes_values b))
    slice_fits : (e : AbiType) (vs : Values) → AllFit e vs → Fits (slice_type e) (slice vs)
    array_fits :
        (n : ℕ) (e : AbiType) (vs : Values)
        → n ≡ values_length vs
        → 0 < n
        → AllFit e vs
        → Fits (array_type n e) (array vs)
    tuple_fits :
        (name : Text) (e : AbiType) (x : Bool) (es : TupleElems) (fs : Fields)
        → TupleFits (tuple_elem name e x es) 0 no_fields fs
        → Fits (tuple_type (tuple_elem name e x es)) (go_map fs)

  pub data AllFit : AbiType → Values → Type 0 where
    none_left : (e : AbiType) → AllFit e no_values
    one_more :
        (e : AbiType) (v : Value) (vs : Values) → Fits e v → AllFit e vs → AllFit e (value v vs)

  pub data TupleFits : TupleElems → ℕ → Fields → Fields → Type 0 where
    last_elem : (i : ℕ) (seen : Fields) → TupleFits no_elems i seen no_fields
    next_elem :
        (name : Text) (e : AbiType) (x : Bool) (es : TupleElems) (i : ℕ) (seen : Fields) (v : Value)
        (fs : Fields)
        → map_index (elem_key name i) seen ≡ none
        → Fits e v
        → TupleFits es (suc i) (snoc seen (elem_key name i) v) fs
        → TupleFits (tuple_elem name e x es) i seen (field (elem_key name i) v fs)

-- The encodings of the parts of a sequence; the mark tells that a part's type is dynamic.
pub data Parts : Type 0 where
  no_parts : Parts
  part : Bool → List ℕ → Parts → Parts

abbrev pub head_size : Bool → List ℕ → ℕ
head_size dynamic b = if dynamic then 32 else length b

unfoldable pub heads_size : Parts → ℕ
heads_size no_parts = 0
heads_size (part d b ps) = head_size d b + heads_size ps

unfoldable pub tails : Parts → List ℕ
tails no_parts = []
tails (part true b ps) = b ++ tails ps
tails (part false b ps) = tails ps

-- The heads, where the tails begin at `offset`.
unfoldable pub heads : ℕ → Parts → List ℕ
heads offset no_parts = []
heads offset (part true b ps) = word offset ++ heads (offset + length b) ps
heads offset (part false b ps) = b ++ heads offset ps

unfoldable pub assemble : Parts → List ℕ
unfolding heads_size tails heads
assemble ps = heads (heads_size ps) ps ++ tails ps

-- The zeros that fill `n` bytes up to a whole number of words.
abbrev pub filling : ℕ → List ℕ
filling n = zeros ((n + 31) / 32 * 32 - n)

-- The encoding of a value.
unfoldable mutual
  pub encoding : {t : AbiType} {v : Value} → Fits t v → List ℕ
  encoding (bool_fits b) = word (if b then 1 else 0)
  encoding (uint_fits s n w h) = word n
  encoding (big_uint_fits s n w h) = word n
  encoding (int_fits s z w h) = word (u256 z)
  encoding (big_int_fits s z w h) = word (u256 z)
  encoding (string_fits s) = word (length s) ++ (s ++ filling (length s))
  encoding (bytes_fits b) = word (length b) ++ (b ++ filling (length b))
  encoding (address_fits b h) = zeros 12 ++ b
  encoding (fixed_bytes_fits s b h k) = b ++ zeros (32 - s)
  encoding (function_fits b h) = b ++ zeros 8
  encoding (slice_fits e vs h) = word (values_length vs) ++ assemble (item_parts h)
  encoding (array_fits n e vs l p h) = assemble (item_parts h)
  encoding (tuple_fits name e x es fs h) = assemble (elem_parts h)

  pub item_parts : {e : AbiType} {vs : Values} → AllFit e vs → Parts
  item_parts (none_left e) = no_parts
  item_parts (one_more e v vs h hs) = part (is_dynamic_type e) (encoding h) (item_parts hs)

  pub elem_parts : {es : TupleElems} {i : ℕ} {seen fs : Fields} → TupleFits es i seen fs → Parts
  elem_parts (last_elem i seen) = no_parts
  elem_parts (next_elem name e x es i seen v fs k h hs) =
      part (is_dynamic_type e) (encoding h) (elem_parts hs)
