-- ===== src/Contract/Params/Bytes.antt =====
-- sdk/contract_function_parameters.go: the methods that add text, bytes, addresses and functions, and
-- arrays of those. An error leaves the builder as it was.
use hiero_sdk_go.Base.{
  ℕ, ◌+◌, ◌-◌, ◌*◌, ◌/◌, ◌%◌, true, false, Option, none, some, List, [], ◌∷◌, ◌++◌, map, ltb, ◌==◌,
  if◌then◌else◌, bind, length, take, drop,
}
use hiero_sdk_go.Base.Text.{Text}
use hiero_sdk_go.Abi.{Result, ok, panicked, ◌>>=◌, ok_or_failed}
use hiero_sdk_go.Abi.Words.{zeros, low_bytes}
use hiero_sdk_go.Abi.Hex.{hex_decode, has_0x}
use hiero_sdk_go.Contract.{
  ContractFunctionParameters, ContractFunctionSelector, Argument, append_argument, new_argument,
  put_last, build_selector, build_loop, total_length, write_at,
}
use hiero_sdk_go.Contract.Params.Arrays.{make_array, append_array}
use hiero_sdk_go.Contract.Selector.Others

-- The length, the bytes, and the zeros behind them: a whole word where the bytes fill theirs.
unfoldable pub length_and_bytes : List ℕ → List ℕ
unfolding put_last
length_and_bytes b =
    put_last new_argument (low_bytes 8 (length b) []) ++ (b ++ zeros (32 - length b % 32))

unfoldable pub add_string : Text → ContractFunctionParameters → ContractFunctionParameters
unfolding length_and_bytes
add_string s = append_argument Others.add_string (length_and_bytes s) true

unfoldable pub add_bytes : List ℕ → ContractFunctionParameters → ContractFunctionParameters
unfolding length_and_bytes
add_bytes b = append_argument Others.add_bytes (length_and_bytes b) true

unfoldable pub add_bytes32 : List ℕ → ContractFunctionParameters → ContractFunctionParameters
add_bytes32 b = append_argument Others.add_bytes32 b false

-- The bytes of an address of 40 digits.
abbrev pub address_bytes : Text → Option (List ℕ)
address_bytes s = if length s == 40 then hex_decode s else none

unfoldable pub add_address : Text → ContractFunctionParameters → Result ContractFunctionParameters
unfolding hex_decode
add_address s c = ok_or_failed (address_bytes (if has_0x s then drop 2 s else s)) >>= λ b.
    ok (append_argument Others.add_address (zeros 12 ++ b) false c)

-- The bytes of an address, and of a selector that has its own name, behind twelve zeros.
unfoldable pub add_function :
    (Text → List ℕ)
    → Text
    → ContractFunctionSelector
    → ContractFunctionParameters
    → Result ContractFunctionParameters
unfolding hex_decode build_selector
add_function keccak s selector c = do
  b ← ok_or_failed (address_bytes s)
  function ← build_selector keccak none selector
  ok (append_argument Others.add_function (zeros 12 ++ (take 20 b ++ take 4 function)) false c)

-- The addresses of an array, or the error of the first that is none.
unfoldable pub addresses_bytes : List Text → Option (List (List ℕ))
unfolding hex_decode
addresses_bytes [] = some []
addresses_bytes (s ∷ ss) = bind (address_bytes s) λ b. bind (addresses_bytes ss) λ bs. some (b ∷ bs)

unfoldable pub add_address_array :
    List Text → ContractFunctionParameters → Result ContractFunctionParameters
unfolding addresses_bytes make_array
add_address_array ss c = ok_or_failed (addresses_bytes ss) >>= λ bs.
    append_array Others.add_address_array c (make_array (length ss * 32 + 32) bs)

-- `copy(b[32-len(v):], v)`: more than 32 bytes panic.
unfoldable pub right_aligned : List (List ℕ) → Result (List (List ℕ))
right_aligned [] = ok []
right_aligned (v ∷ vs) =
    let rest = right_aligned vs >>= λ bs. ok ((zeros (32 - length v) ++ v) ∷ bs) in
    if ltb 32 (length v) then panicked else rest

unfoldable pub add_bytes32_array :
    List (List ℕ) → ContractFunctionParameters → Result ContractFunctionParameters
unfolding right_aligned make_array
add_bytes32_array vs c = right_aligned vs >>= λ bs.
    append_array Others.add_bytes32_array c (make_array (length vs * 32 + 32) bs)

-- The length of the buffer of one item of `bytesArray`.
abbrev item_length : List ℕ → ℕ
item_length s = if length s / 32 == 0 then 32 else (length s / 32 + 1) * 32

-- One item: its length, and its bytes in a buffer of whole words.
unfoldable pub bytes_item : List ℕ → Argument
unfolding write_at
bytes_item s = record {
  value = write_at (write_at (zeros (item_length s + 32)) 24 (low_bytes 8 (length s) [])) 32 s;
  dynamic = true;
}

-- `bytesArray`: the loop is the one of `_Build`, with each item dynamic, behind the number of items.
unfoldable pub bytes_array : List (List ℕ) → List ℕ
unfolding build_loop bytes_item total_length
bytes_array items =
    build_loop (map bytes_item items) 0 32 (length items * 32) (
      write_at (zeros (total_length (map bytes_item items) + 32)) 24
        (low_bytes 8 (length items) []))

unfoldable pub add_bytes_array :
    List (List ℕ) → ContractFunctionParameters → ContractFunctionParameters
unfolding bytes_array
add_bytes_array items = append_argument Others.add_bytes_array (bytes_array items) true

unfoldable pub add_string_array :
    List Text → ContractFunctionParameters → ContractFunctionParameters
unfolding bytes_array
add_string_array items = append_argument Others.add_string_array (bytes_array items) true
