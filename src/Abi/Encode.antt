-- ===== src/Abi/Encode.antt =====
-- sdk/abi_encode.go: the encoder of the codec. Values of a struct, a float or a pointer other than
-- `*big.Int` have no counterpart; the result of an unknown kind of type has no case.
use hiero_sdk_go.Base.{
  ℕ, zero, suc, ◌+◌, ◌*◌, Bool, true, false, Option, none, some, List, [], ◌∷◌, ◌++◌, ltb, ◌==◌,
  if◌then◌else◌, length, drop,
}
use hiero_sdk_go.Base.Int.{pos}
use hiero_sdk_go.Base.Text.{Text, format_uint}
use hiero_sdk_go.Abi.{
  AbiType, TupleElems, bool_type, string_type, address_type, bytes_type, function_type, uint_type,
  int_type, fixed_bytes_type, array_type, slice_type, tuple_type, no_elems, tuple_elem, Value,
  Values, bool, uint, int, big_int, string, slice, array, go_map, no_values, value, Result, ok,
  failed, panicked, ◌>>=◌, ok_or_failed, values_length, fields_length, elems_length, map_index,
  is_dynamic_type, get_type_size, elems_size,
}
use hiero_sdk_go.Abi.Words.{pad_bytes, to_u256, pack_num, pack_bytes_slice}
use hiero_sdk_go.Abi.Hex.{decode_hex, unmarshal_text_byte, set_string}

abbrev pub byte_of : Value → Result ℕ
byte_of (uint w n) = if w == 8 then ok n else panicked
byte_of _ = panicked

-- `reflect.Value.Bytes`, which panics where an element is no byte. An empty slice has no element
-- that tells its type, and is read as one of bytes.
unfoldable pub bytes_of : Values → Result (List ℕ)
bytes_of no_values = ok []
bytes_of (value v vs) = do b ← byte_of v; bs ← bytes_of vs; ok (b ∷ bs)

-- The bytes of a slice, or of an array through `convertArrayToBytes`.
unfoldable pub value_bytes : Value → Result (List ℕ)
unfolding bytes_of
value_bytes (slice vs) = bytes_of vs
value_bytes (array vs) = bytes_of vs
value_bytes _ = panicked

-- The string case of `encodeNum`: decimal, or hexadecimal behind two characters.
unfoldable pub encode_number_text : Text → Result (List ℕ)
unfolding set_string
encode_number_text s = elim (set_string 10 s) [
  | some z ↦ ok (to_u256 z)
  | none ↦
      if ltb (length s) 2
      then panicked
      else ok_or_failed (set_string 16 (drop 2 s)) >>= λ z. ok (to_u256 z)
]

-- `encodeNum`
unfoldable pub encode_num : Value → Result (List ℕ)
unfolding encode_number_text
encode_num (uint w n) = ok (to_u256 (pos n))
encode_num (int w z) = ok (to_u256 z)
encode_num (big_int z) = ok (to_u256 z)
encode_num (string s) = encode_number_text s
encode_num _ = failed

-- `encodeBool`
unfoldable pub encode_bool : Value → Result (List ℕ)
encode_bool (bool true) = ok (pad_bytes (1 ∷ []) 32 true)
encode_bool (bool false) = ok (pad_bytes [] 32 true)
encode_bool _ = failed

-- `encodeFixedBytes`
unfoldable pub encode_fixed_bytes : Value → Result (List ℕ)
unfolding value_bytes decode_hex
encode_fixed_bytes (string s) = do b ← ok_or_failed (decode_hex s); ok (pad_bytes b 32 false)
encode_fixed_bytes v = do b ← value_bytes v; ok (pad_bytes b 32 false)

-- `encodeAddress`
unfoldable pub encode_address : Value → Result (List ℕ)
unfolding value_bytes unmarshal_text_byte
encode_address (string s) = do b ← ok_or_failed (unmarshal_text_byte s 20); ok (pad_bytes b 32 true)
encode_address v = do b ← value_bytes v; ok (pad_bytes b 32 true)

-- `encodeBytes`
unfoldable pub encode_bytes : Value → Result (List ℕ)
unfolding value_bytes decode_hex
encode_bytes (string s) = do b ← ok_or_failed (decode_hex s); ok (pack_bytes_slice b)
encode_bytes v = do b ← value_bytes v; ok (pack_bytes_slice b)

-- `encodeString`
unfoldable pub encode_string : Value → Result (List ℕ)
encode_string (string s) = ok (pack_bytes_slice s)
encode_string _ = failed

-- The loop of `encodeSliceAndArray`, from an offset and the bytes written so far to both parts.
-- `enc` encodes an element.
unfoldable pub encode_items :
    (Value → Result (List ℕ)) → Bool → Values → ℕ → List ℕ → List ℕ → Result (List ℕ)
encode_items enc dynamic no_values offset ret tail = ok (ret ++ tail)
encode_items enc dynamic (value v vs) offset ret tail = do
  val ← enc v
  encode_items enc dynamic vs (if dynamic then offset + length val else offset)
      (ret ++ (if dynamic then pack_num offset else val)) (if dynamic then tail ++ val else tail)

-- `offset` before the loop.
abbrev pub first_offset : AbiType → ℕ → ℕ
first_offset e n = if is_dynamic_type e then get_type_size e * n else 0

-- `encodeSliceAndArray`, for each of its two kinds of type.
unfoldable pub encode_slice : (Value → Result (List ℕ)) → AbiType → Value → Result (List ℕ)
unfolding encode_items
encode_slice enc e (slice vs) =
    encode_items enc (is_dynamic_type e) vs (first_offset e (values_length vs))
      (pack_num (values_length vs)) []
encode_slice enc e _ = failed

unfoldable pub encode_array : (Value → Result (List ℕ)) → ℕ → AbiType → Value → Result (List ℕ)
unfolding encode_items
encode_array enc n e (array vs) =
    if n == values_length vs
    then encode_items enc (is_dynamic_type e) vs (first_offset e (values_length vs)) [] []
    else failed
encode_array enc n e _ = failed

-- `v.Index(i)`
unfoldable pub values_index : Values → ℕ → Result Value
values_index no_values i = panicked
values_index (value v vs) zero = ok v
values_index (value v vs) (suc i) = values_index vs i

-- The key of an element: its name, or else its position.
unfoldable pub elem_key : Text → ℕ → Text
elem_key [] i = format_uint i
elem_key (c ∷ s) i = c ∷ s

-- The value that the loop of `encodeTuple` takes for an element.
unfoldable pub tuple_arg : Value → Text → ℕ → Result Value
unfolding values_index elem_key map_index
tuple_arg (slice vs) name i = values_index vs i
tuple_arg (array vs) name i = values_index vs i
tuple_arg (go_map fs) name i = ok_or_failed (map_index (elem_key name i) fs)
tuple_arg _ name i = failed

-- `v.Len()` of a value that `encodeTuple` takes.
abbrev pub tuple_length : Value → Option ℕ
tuple_length (slice vs) = some (values_length vs)
tuple_length (array vs) = some (values_length vs)
tuple_length (go_map fs) = some (fields_length fs)
tuple_length _ = none

-- `encode`, with the loop of `encodeTuple`.
unfoldable mutual
  pub encode : AbiType → Value → Result (List ℕ)
  encode (slice_type e) v = encode_slice (encode e) e v
  encode (array_type n e) v = encode_array (encode e) n e v
  encode (tuple_type es) v = do
    n ← ok_or_failed (tuple_length v)
    if ltb n (elems_length es) then failed else encode_elems es v 0 (elems_size es) [] []
  encode string_type v = encode_string v
  encode bool_type v = encode_bool v
  encode address_type v = encode_address v
  encode (int_type s) v = encode_num v
  encode (uint_type s) v = encode_num v
  encode bytes_type v = encode_bytes v
  encode (fixed_bytes_type s) v = encode_fixed_bytes v
  encode function_type v = encode_fixed_bytes v

  pub encode_elems : TupleElems → Value → ℕ → ℕ → List ℕ → List ℕ → Result (List ℕ)
  encode_elems no_elems v i offset ret tail = ok (ret ++ tail)
  encode_elems (tuple_elem name e x es) v i offset ret tail = do
    aux ← tuple_arg v name i
    val ← encode e aux
    encode_elems es v (suc i) (if is_dynamic_type e then offset + length val else offset)
        (ret ++ (if is_dynamic_type e then pack_num offset else val))
        (if is_dynamic_type e then tail ++ val else tail)
