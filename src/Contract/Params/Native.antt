-- ===== src/Contract/Params/Native.antt =====
-- sdk/contract_function_parameters.go: the methods that add a truth value or an integer of a Go type.
use hiero_sdk_go.Base.{ℕ, Bool, true, false, [], ◌∷◌}
use hiero_sdk_go.Base.Int.{ℤ}
use hiero_sdk_go.Contract.{
  ContractFunctionParameters, append_argument, new_argument, new_int_argument, put_last,
  to_unsigned,
}
use hiero_sdk_go.Abi.Words.{low_bytes}
use hiero_sdk_go.Contract.Selector.Ints
use hiero_sdk_go.Contract.Selector.Uints
use hiero_sdk_go.Contract.Selector.Others

unfoldable pub add_bool : Bool → ContractFunctionParameters → ContractFunctionParameters
unfolding put_last
add_bool true = append_argument Others.add_bool (put_last new_argument (1 ∷ [])) false
add_bool false = append_argument Others.add_bool (put_last new_argument (0 ∷ [])) false

unfoldable pub add_int8 : ℤ → ContractFunctionParameters → ContractFunctionParameters
unfolding put_last new_int_argument
add_int8 z =
    append_argument Ints.add_int8 (put_last (new_int_argument z) (low_bytes 1 (to_unsigned 8 z) []))
      false

unfoldable pub add_int16 : ℤ → ContractFunctionParameters → ContractFunctionParameters
unfolding put_last new_int_argument
add_int16 z =
    append_argument Ints.add_int16
      (put_last (new_int_argument z) (low_bytes 2 (to_unsigned 16 z) [])) false

unfoldable pub add_int24 : ℤ → ContractFunctionParameters → ContractFunctionParameters
unfolding put_last new_int_argument
add_int24 z =
    append_argument Ints.add_int24
      (put_last (new_int_argument z) (low_bytes 4 (to_unsigned 32 z) [])) false

unfoldable pub add_int32 : ℤ → ContractFunctionParameters → ContractFunctionParameters
unfolding put_last new_int_argument
add_int32 z =
    append_argument Ints.add_int32
      (put_last (new_int_argument z) (low_bytes 4 (to_unsigned 32 z) [])) false

unfoldable pub add_int40 : ℤ → ContractFunctionParameters → ContractFunctionParameters
unfolding put_last new_int_argument
add_int40 z =
    append_argument Ints.add_int40
      (put_last (new_int_argument z) (low_bytes 8 (to_unsigned 64 z) [])) false

unfoldable pub add_int48 : ℤ → ContractFunctionParameters → ContractFunctionParameters
unfolding put_last new_int_argument
add_int48 z =
    append_argument Ints.add_int48
      (put_last (new_int_argument z) (low_bytes 8 (to_unsigned 64 z) [])) false

unfoldable pub add_int56 : ℤ → ContractFunctionParameters → ContractFunctionParameters
unfolding put_last new_int_argument
add_int56 z =
    append_argument Ints.add_int56
      (put_last (new_int_argument z) (low_bytes 8 (to_unsigned 64 z) [])) false

unfoldable pub add_int64 : ℤ → ContractFunctionParameters → ContractFunctionParameters
unfolding put_last new_int_argument
add_int64 z =
    append_argument Ints.add_int64
      (put_last (new_int_argument z) (low_bytes 8 (to_unsigned 64 z) [])) false

unfoldable pub add_uint8 : ℕ → ContractFunctionParameters → ContractFunctionParameters
unfolding put_last
add_uint8 n = append_argument Uints.add_uint8 (put_last new_argument (low_bytes 1 n [])) false

unfoldable pub add_uint16 : ℕ → ContractFunctionParameters → ContractFunctionParameters
unfolding put_last
add_uint16 n = append_argument Uints.add_uint16 (put_last new_argument (low_bytes 2 n [])) false

unfoldable pub add_uint24 : ℕ → ContractFunctionParameters → ContractFunctionParameters
unfolding put_last
add_uint24 n = append_argument Uints.add_uint24 (put_last new_argument (low_bytes 4 n [])) false

unfoldable pub add_uint32 : ℕ → ContractFunctionParameters → ContractFunctionParameters
unfolding put_last
add_uint32 n = append_argument Uints.add_uint32 (put_last new_argument (low_bytes 4 n [])) false

unfoldable pub add_uint40 : ℕ → ContractFunctionParameters → ContractFunctionParameters
unfolding put_last
add_uint40 n = append_argument Uints.add_uint40 (put_last new_argument (low_bytes 8 n [])) false

unfoldable pub add_uint48 : ℕ → ContractFunctionParameters → ContractFunctionParameters
unfolding put_last
add_uint48 n = append_argument Uints.add_uint48 (put_last new_argument (low_bytes 8 n [])) false

unfoldable pub add_uint56 : ℕ → ContractFunctionParameters → ContractFunctionParameters
unfolding put_last
add_uint56 n = append_argument Uints.add_uint56 (put_last new_argument (low_bytes 8 n [])) false

unfoldable pub add_uint64 : ℕ → ContractFunctionParameters → ContractFunctionParameters
unfolding put_last
add_uint64 n = append_argument Uints.add_uint64 (put_last new_argument (low_bytes 8 n [])) false
