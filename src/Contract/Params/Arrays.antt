-- ===== src/Contract/Params/Arrays.antt =====
-- sdk/contract_function_parameters.go: the methods that add an array of integers.
use hiero_sdk_go.Base.{ℕ, suc, ◌+◌, ◌-◌, ◌*◌, true, List, [], ◌∷◌, map, ltb, if◌then◌else◌, length}
use hiero_sdk_go.Base.Int.{ℤ}
use hiero_sdk_go.Abi.{Result, ok, panicked, ◌>>=◌}
use hiero_sdk_go.Abi.Words.{zeros, low_bytes}
use hiero_sdk_go.Contract.{
  ContractFunctionParameters, ContractFunctionSelector, append_argument, to_unsigned, write_at,
}
use hiero_sdk_go.Contract.Selector.Others

-- The loop over the items: each one is written at the end of its word. A slice past the end of the
-- buffer panics.
unfoldable pub put_items : List (List ℕ) → ℕ → List ℕ → Result (List ℕ)
unfolding write_at
put_items [] i result = ok result
put_items (b ∷ bs) i result =
    let rest = put_items bs (suc i) (write_at result (i * 32 + 64 - length b) b) in
    if ltb (length result) (i * 32 + 64) then panicked else rest

-- A buffer of `size` bytes that starts with the number of items, and the items behind it.
unfoldable pub make_array : ℕ → List (List ℕ) → Result (List ℕ)
unfolding put_items
make_array size items = put_items items 0 (write_at (zeros size) 24 (low_bytes 8 (length items) []))

abbrev pub append_array :
    (ContractFunctionSelector → ContractFunctionSelector)
    → ContractFunctionParameters
    → Result (List ℕ)
    → Result ContractFunctionParameters
append_array select c r = r >>= λ bytes. ok (append_argument select bytes true c)

abbrev pub int32_bytes : ℤ → List ℕ
int32_bytes z = low_bytes 4 (to_unsigned 32 z) []

abbrev int64_bytes : ℤ → List ℕ
int64_bytes z = low_bytes 8 (to_unsigned 64 z) []

unfoldable pub add_int8_array :
    List ℤ → ContractFunctionParameters → Result ContractFunctionParameters
add_int8_array zs c =
    append_array Others.add_int32_array c (make_array (length zs * 32 + 32) (map int32_bytes zs))

unfoldable pub add_int16_array :
    List ℤ → ContractFunctionParameters → Result ContractFunctionParameters
add_int16_array zs c =
    append_array Others.add_int32_array c (make_array (length zs * 32 + 32) (map int32_bytes zs))

unfoldable pub add_int24_array :
    List ℤ → ContractFunctionParameters → Result ContractFunctionParameters
add_int24_array zs c =
    append_array Others.add_int32_array c (make_array (length zs * 32 + 32) (map int32_bytes zs))

-- The buffer of this method has one byte for each item.
unfoldable pub add_int32_array :
    List ℤ → ContractFunctionParameters → Result ContractFunctionParameters
add_int32_array zs c =
    append_array Others.add_int32_array c (make_array (length zs + 32) (map int32_bytes zs))

unfoldable pub add_int64_array :
    List ℤ → ContractFunctionParameters → Result ContractFunctionParameters
add_int64_array zs c =
    append_array Others.add_int64_array c (make_array (length zs * 32 + 32) (map int64_bytes zs))

-- Items of 32 bytes.
unfoldable pub add_int256_array :
    List (List ℕ) → ContractFunctionParameters → Result ContractFunctionParameters
add_int256_array bs c = append_array Others.add_int256_array c (make_array (length bs * 32 + 32) bs)

unfoldable pub add_uint32_array :
    List ℕ → ContractFunctionParameters → Result ContractFunctionParameters
add_uint32_array ns c =
    append_array Others.add_uint32_array c
      (make_array (length ns * 32 + 32) (map (λ n. low_bytes 4 n []) ns))

unfoldable pub add_uint64_array :
    List ℕ → ContractFunctionParameters → Result ContractFunctionParameters
add_uint64_array ns c =
    append_array Others.add_uint64_array c
      (make_array (length ns * 32 + 32) (map (λ n. low_bytes 8 n []) ns))

-- Items of 32 bytes.
unfoldable pub add_uint256_array :
    List (List ℕ) → ContractFunctionParameters → Result ContractFunctionParameters
add_uint256_array bs c =
    append_array Others.add_uint256_array c (make_array (length bs * 32 + 32) bs)
