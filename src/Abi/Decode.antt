-- ===== src/Abi/Decode.antt =====
-- sdk/abi_decode.go: the decoder of the codec. The decoding into a struct, which another library
-- does, has no counterpart; the result of an unknown kind of type has no case.
use hiero_sdk_go.Base.{
  ◌++◌, ℕ, zero, suc, ◌+◌, ◌-◌, ◌*◌, ◌^◌, Bool, true, false, ◌&&◌, none, some, List, [], ◌∷◌, leb,
  ltb, ◌==◌, if◌then◌else◌, length, take, drop, get_elem?,
}
use hiero_sdk_go.Base.Int.{ℤ, pos, sub_ℕ}
use hiero_sdk_go.Base.Text.{Text}
use hiero_sdk_go.Abi.{
  AbiType, TupleElems, bool_type, string_type, address_type, bytes_type, function_type, uint_type,
  int_type, fixed_bytes_type, array_type, slice_type, tuple_type, no_elems, tuple_elem, Value,
  Values, Fields, bool, uint, int, big_int, string, slice, array, go_map, no_values, value,
  no_fields, field, Result, ok, failed, panicked, ◌>>=◌, map_index, is_dynamic_type,
}
use hiero_sdk_go.Abi.Words.{set_bytes}
use hiero_sdk_go.Abi.Encode.{elem_key}

-- Bytes as the elements of a slice or an array.
abbrev pub bytes_values : List ℕ → Values
bytes_values [] = no_values
bytes_values (b ∷ bs) = value (uint 8 b) (bytes_values bs)

-- A bit pattern of `w` bits, read in two's complement.
abbrev pub signed : ℕ → ℕ → ℤ
signed w n = if ltb n (2 ^ (w - 1)) then pos n else sub_ℕ n (2 ^ w)

-- `readInteger`, of an unsigned type and of a signed one. A word is read as a whole, or its last
-- bytes where the type has a Go type of its own.
unfoldable pub read_uint : ℕ → List ℕ → Value
unfolding set_bytes
read_uint s b =
    if s == 8
    then uint 8 (set_bytes 0 (drop 31 b))
    else if s == 16
    then uint 16 (set_bytes 0 (drop 30 b))
    else if s == 32
    then uint 32 (set_bytes 0 (drop 28 b))
    else if s == 64
    then uint 64 (set_bytes 0 (drop 24 b))
    else big_int (pos (set_bytes 0 b))

-- The default case of a signed type: above `maxInt256` it stands for itself less 2 ^ 256.
abbrev pub signed_256 : ℕ → ℤ
signed_256 n = if ltb (2 ^ 255 - 1) n then sub_ℕ 0 (2 ^ 256 - 1 - n + 1) else pos n

unfoldable pub read_int : ℕ → List ℕ → Value
unfolding set_bytes
read_int s b =
    if s == 8
    then int 8 (signed 8 (set_bytes 0 (drop 31 b)))
    else if s == 16
    then int 16 (signed 16 (set_bytes 0 (drop 30 b)))
    else if s == 32
    then int 32 (signed 32 (set_bytes 0 (drop 28 b)))
    else if s == 64
    then int 64 (signed 64 (set_bytes 0 (drop 24 b)))
    else big_int (signed_256 (set_bytes 0 b))

-- `readOffset`: an offset past the input, or of more than 63 bits, is an error.
unfoldable pub read_offset : List ℕ → ℕ → Result ℕ
unfolding set_bytes
read_offset input len =
    let offset = set_bytes 0 (take 32 input) in
    if leb (2 ^ 63) offset then failed else if ltb len offset then failed else ok offset

-- `readLength`
unfoldable pub read_length : List ℕ → Result ℕ
unfolding set_bytes
read_length input =
    let len = set_bytes 0 (take 32 input) in
    if leb (2 ^ 63) len then failed else if ltb (length input - 32) len then failed else ok len

unfoldable pub all_zeros : List ℕ → Bool
all_zeros [] = true
all_zeros (b ∷ bs) = b == 0 && all_zeros bs

-- `decodeBool`
unfoldable pub decode_bool : List ℕ → Result Value
decode_bool word = elim (get_elem? word 31) [
  | none ↦ panicked
  | some b ↦ if b == 0 then ok (bool false) else if b == 1 then ok (bool true) else failed
]

-- `readAddr`
unfoldable pub read_addr : List ℕ → Result Value
read_addr b = if length b == 32 then ok (array (bytes_values (drop 12 b))) else failed

-- `readFixedBytes`, of a word and the bytes behind it in its array. The slice `word[0:t.size]` reaches
-- past the word into those bytes, and panics past the array's end.
unfoldable pub read_fixed_bytes : ℕ → List ℕ → List ℕ → Result Value
read_fixed_bytes size word behind =
    if leb size (length word)
    then ok (array (bytes_values (take size word)))
    else if leb size (length (word ++ behind))
    then ok (array (bytes_values (take size (word ++ behind))))
    else panicked

-- `readFunctionType`
unfoldable pub read_function_type : List ℕ → Result Value
unfolding all_zeros
read_function_type word =
    if all_zeros (drop 24 word) then ok (array (bytes_values (take 24 word))) else failed

-- The body that the loops of `decodeTuple` and `decodeArraySlice` share: the value of one element,
-- read in place or at its offset in `orig`, and what is left of the heads.
unfoldable pub decode_entry :
    (List ℕ → Result (Value × List ℕ)) → Bool → List ℕ → List ℕ → Result (Value × List ℕ)
unfolding read_offset
decode_entry dec dynamic orig input =
    if ltb (length input) 32
    then failed
    else if dynamic
    then (do
      offset ← read_offset input (length orig)
      (val, tail) ← dec (drop offset orig)
      ok (val, drop 32 input))
    else dec input

-- The loop of `decodeArraySlice`, for the elements that are left.
unfoldable pub decode_items :
    (List ℕ → Result (Value × List ℕ)) → Bool → ℕ → List ℕ → List ℕ → Result (Values × List ℕ)
decode_items dec dynamic zero orig input = ok (no_values, input)
decode_items dec dynamic (suc size) orig input = do
  (val, input') ← decode_entry dec dynamic orig input
  (vals, rest) ← decode_items dec dynamic size orig input'
  ok (value val vals, rest)

-- `decodeArraySlice`
unfoldable pub decode_array_slice :
    (List ℕ → Result (Value × List ℕ))
    → Bool
    → (Values → Value)
    → List ℕ
    → ℕ
    → Result (Value × List ℕ)
decode_array_slice dec dynamic make input size =
    if ltb (length input) (32 * size)
    then failed
    else decode_items dec dynamic size input input >>= λ (vals, rest). ok (make vals, rest)

-- `res[name] = val`, at the end of the entries.
abbrev pub snoc : Fields → Text → Value → Fields
snoc no_fields name v = field name v no_fields
snoc (field n w fs) name v = field n w (snoc fs name v)

-- A new entry of the map, or the error of a name that is there.
unfoldable pub insert_new : Fields → Text → Value → Result Fields
unfolding map_index
insert_new res name val = elim (map_index name res) [
  | none ↦ ok (snoc res name val)
  | some w ↦ failed
]

-- The cases of `decode` that are no tuple, slice or array: the value, and the input behind a word.
abbrev pub with_rest : List ℕ → Result Value → Result (Value × List ℕ)
with_rest input r = r >>= λ v. ok (v, drop 32 input)

-- The bytes of a variable input behind its length.
unfoldable pub read_bytes : List ℕ → Result (List ℕ)
unfolding read_length
read_bytes input = do n ← read_length input; ok (take n (drop 32 input))

-- The kinds that are no composite.
abbrev pub decode_word : AbiType → List ℕ → Result Value
decode_word bool_type input = decode_bool (take 32 input)
decode_word (int_type s) input = ok (read_int s (take 32 input))
decode_word (uint_type s) input = ok (read_uint s (take 32 input))
decode_word string_type input = do b ← read_bytes input; ok (string b)
decode_word bytes_type input = do b ← read_bytes input; ok (slice (bytes_values b))
decode_word address_type input = read_addr (take 32 input)
decode_word (fixed_bytes_type s) input = read_fixed_bytes s (take 32 input) (drop 32 input)
decode_word function_type input = read_function_type (take 32 input)
decode_word _ input = failed

abbrev pub as_map : Fields × List ℕ → Result (Value × List ℕ)
as_map (res, rest) = ok (go_map res, rest)

-- `decode`, with the loop of `decodeTuple`. The input is checked to hold a word at each call.
unfoldable mutual
  pub decode : AbiType → List ℕ → Result (Value × List ℕ)
  decode (slice_type e) input =
      if ltb (length input) 32
      then failed
      else read_length input >>= λ n.
          decode_array_slice (decode e) (is_dynamic_type e) slice (drop 32 input) n
  decode (array_type n e) input =
      if ltb (length input) 32
      then failed
      else decode_array_slice (decode e) (is_dynamic_type e) array input n
  decode (tuple_type es) input =
      if ltb (length input) 32 then failed else decode_elems es 0 input input no_fields >>= as_map
  decode t input = if ltb (length input) 32 then failed else with_rest input (decode_word t input)

  pub decode_elems : TupleElems → ℕ → List ℕ → List ℕ → Fields → Result (Fields × List ℕ)
  decode_elems no_elems i orig input res = ok (res, input)
  decode_elems (tuple_elem name e x es) i orig input res = do
    (val, input') ← decode_entry (decode e) (is_dynamic_type e) orig input
    res' ← insert_new res (elem_key name i) val
    decode_elems es (suc i) orig input' res'

-- `Decode`
unfoldable pub decode_value : AbiType → List ℕ → Result Value
unfolding decode
decode_value t [] = failed
decode_value t (b ∷ bs) = do (val, rest) ← decode t (b ∷ bs); ok val
