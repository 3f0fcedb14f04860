-- ===== src/Contract/Params/Uints.antt =====
-- sdk/contract_function_parameters.go: the methods that add an unsigned integer of more than 64 bits, as
-- bytes that the caller has laid out or as a `*big.Int`.
use hiero_sdk_go.Base.{ℕ, false, List}
use hiero_sdk_go.Base.Int.{ℤ}
use hiero_sdk_go.Contract.{ContractFunctionParameters, append_argument, to_256_bit_bytes}
use hiero_sdk_go.Contract.Selector.Uints

unfoldable pub add_uint72 : List ℕ → ContractFunctionParameters → ContractFunctionParameters
add_uint72 bytes = append_argument Uints.add_uint72 bytes false

unfoldable pub add_uint72_big_int : ℤ → ContractFunctionParameters → ContractFunctionParameters
unfolding to_256_bit_bytes
add_uint72_big_int z = append_argument Uints.add_uint72 (to_256_bit_bytes z) false

unfoldable pub add_uint80 : List ℕ → ContractFunctionParameters → ContractFunctionParameters
add_uint80 bytes = append_argument Uints.add_uint80 bytes false

unfoldable pub add_uint80_big_int : ℤ → ContractFunctionParameters → ContractFunctionParameters
unfolding to_256_bit_bytes
add_uint80_big_int z = append_argument Uints.add_uint80 (to_256_bit_bytes z) false

unfoldable pub add_uint88 : List ℕ → ContractFunctionParameters → ContractFunctionParameters
add_uint88 bytes = append_argument Uints.add_uint88 bytes false

unfoldable pub add_uint88_big_int : ℤ → ContractFunctionParameters → ContractFunctionParameters
unfolding to_256_bit_bytes
add_uint88_big_int z = append_argument Uints.add_uint88 (to_256_bit_bytes z) false

unfoldable pub add_uint96 : List ℕ → ContractFunctionParameters → ContractFunctionParameters
add_uint96 bytes = append_argument Uints.add_uint96 bytes false

unfoldable pub add_uint96_big_int : ℤ → ContractFunctionParameters → ContractFunctionParameters
unfolding to_256_bit_bytes
add_uint96_big_int z = append_argument Uints.add_uint96 (to_256_bit_bytes z) false

unfoldable pub add_uint104 : List ℕ → ContractFunctionParameters → ContractFunctionParameters
add_uint104 bytes = append_argument Uints.add_uint104 bytes false

unfoldable pub add_uint104ig_int : ℤ → ContractFunctionParameters → ContractFunctionParameters
unfolding to_256_bit_bytes
add_uint104ig_int z = append_argument Uints.add_uint104 (to_256_bit_bytes z) false

unfoldable pub add_uint112 : List ℕ → ContractFunctionParameters → ContractFunctionParameters
add_uint112 bytes = append_argument Uints.add_uint112 bytes false

unfoldable pub add_uint112_big_int : ℤ → ContractFunctionParameters → ContractFunctionParameters
unfolding to_256_bit_bytes
add_uint112_big_int z = append_argument Uints.add_uint112 (to_256_bit_bytes z) false

unfoldable pub add_uint120 : List ℕ → ContractFunctionParameters → ContractFunctionParameters
add_uint120 bytes = append_argument Uints.add_uint120 bytes false

unfoldable pub add_uint120_big_int : ℤ → ContractFunctionParameters → ContractFunctionParameters
unfolding to_256_bit_bytes
add_uint120_big_int z = append_argument Uints.add_uint120 (to_256_bit_bytes z) false

unfoldable pub add_uint128 : List ℕ → ContractFunctionParameters → ContractFunctionParameters
add_uint128 bytes = append_argument Uints.add_uint128 bytes false

unfoldable pub add_uint128_big_int : ℤ → ContractFunctionParameters → ContractFunctionParameters
unfolding to_256_bit_bytes
add_uint128_big_int z = append_argument Uints.add_uint128 (to_256_bit_bytes z) false

unfoldable pub add_uint136 : List ℕ → ContractFunctionParameters → ContractFunctionParameters
add_uint136 bytes = append_argument Uints.add_uint136 bytes false

unfoldable pub add_uint136_big_int : ℤ → ContractFunctionParameters → ContractFunctionParameters
unfolding to_256_bit_bytes
add_uint136_big_int z = append_argument Uints.add_uint136 (to_256_bit_bytes z) false

unfoldable pub add_uint144 : List ℕ → ContractFunctionParameters → ContractFunctionParameters
add_uint144 bytes = append_argument Uints.add_uint144 bytes false

unfoldable pub add_uint144_big_int : ℤ → ContractFunctionParameters → ContractFunctionParameters
unfolding to_256_bit_bytes
add_uint144_big_int z = append_argument Uints.add_uint144 (to_256_bit_bytes z) false

unfoldable pub add_uint152 : List ℕ → ContractFunctionParameters → ContractFunctionParameters
add_uint152 bytes = append_argument Uints.add_uint152 bytes false

unfoldable pub add_uint152_big_int : ℤ → ContractFunctionParameters → ContractFunctionParameters
unfolding to_256_bit_bytes
add_uint152_big_int z = append_argument Uints.add_uint152 (to_256_bit_bytes z) false

unfoldable pub add_uint160 : List ℕ → ContractFunctionParameters → ContractFunctionParameters
add_uint160 bytes = append_argument Uints.add_uint160 bytes false

unfoldable pub add_uint160_big_int : ℤ → ContractFunctionParameters → ContractFunctionParameters
unfolding to_256_bit_bytes
add_uint160_big_int z = append_argument Uints.add_uint160 (to_256_bit_bytes z) false

unfoldable pub add_uint168 : List ℕ → ContractFunctionParameters → ContractFunctionParameters
add_uint168 bytes = append_argument Uints.add_uint168 bytes false

unfoldable pub add_uint168_big_int : ℤ → ContractFunctionParameters → ContractFunctionParameters
unfolding to_256_bit_bytes
add_uint168_big_int z = append_argument Uints.add_uint168 (to_256_bit_bytes z) false

unfoldable pub add_uint176 : List ℕ → ContractFunctionParameters → ContractFunctionParameters
add_uint176 bytes = append_argument Uints.add_uint176 bytes false

unfoldable pub add_uint176_big_int : ℤ → ContractFunctionParameters → ContractFunctionParameters
unfolding to_256_bit_bytes
add_uint176_big_int z = append_argument Uints.add_uint176 (to_256_bit_bytes z) false

unfoldable pub add_uint184 : List ℕ → ContractFunctionParameters → ContractFunctionParameters
add_uint184 bytes = append_argument Uints.add_uint184 bytes false

unfoldable pub add_uint184_big_int : ℤ → ContractFunctionParameters → ContractFunctionParameters
unfolding to_256_bit_bytes
add_uint184_big_int z = append_argument Uints.add_uint184 (to_256_bit_bytes z) false

unfoldable pub add_uint192 : List ℕ → ContractFunctionParameters → ContractFunctionParameters
add_uint192 bytes = append_argument Uints.add_uint192 bytes false

unfoldable pub add_uint192_big_int : ℤ → ContractFunctionParameters → ContractFunctionParameters
unfolding to_256_bit_bytes
add_uint192_big_int z = append_argument Uints.add_uint192 (to_256_bit_bytes z) false

unfoldable pub add_uint200 : List ℕ → ContractFunctionParameters → ContractFunctionParameters
add_uint200 bytes = append_argument Uints.add_uint200 bytes false

unfoldable pub add_uint200_big_int : ℤ → ContractFunctionParameters → ContractFunctionParameters
unfolding to_256_bit_bytes
add_uint200_big_int z = append_argument Uints.add_uint200 (to_256_bit_bytes z) false

unfoldable pub add_uint208 : List ℕ → ContractFunctionParameters → ContractFunctionParameters
add_uint208 bytes = append_argument Uints.add_uint208 bytes false

unfoldable pub add_uint208_big_int : ℤ → ContractFunctionParameters → ContractFunctionParameters
unfolding to_256_bit_bytes
add_uint208_big_int z = append_argument Uints.add_uint208 (to_256_bit_bytes z) false

unfoldable pub add_uint216 : List ℕ → ContractFunctionParameters → ContractFunctionParameters
add_uint216 bytes = append_argument Uints.add_uint216 bytes false

unfoldable pub add_uint216_big_int : ℤ → ContractFunctionParameters → ContractFunctionParameters
unfolding to_256_bit_bytes
add_uint216_big_int z = append_argument Uints.add_uint216 (to_256_bit_bytes z) false

unfoldable pub add_uint224 : List ℕ → ContractFunctionParameters → ContractFunctionParameters
add_uint224 bytes = append_argument Uints.add_uint224 bytes false

unfoldable pub add_uint224_big_int : ℤ → ContractFunctionParameters → ContractFunctionParameters
unfolding to_256_bit_bytes
add_uint224_big_int z = append_argument Uints.add_uint224 (to_256_bit_bytes z) false

unfoldable pub add_uint232 : List ℕ → ContractFunctionParameters → ContractFunctionParameters
add_uint232 bytes = append_argument Uints.add_uint232 bytes false

unfoldable pub add_uint232_big_int : ℤ → ContractFunctionParameters → ContractFunctionParameters
unfolding to_256_bit_bytes
add_uint232_big_int z = append_argument Uints.add_uint232 (to_256_bit_bytes z) false

unfoldable pub add_uint240 : List ℕ → ContractFunctionParameters → ContractFunctionParameters
add_uint240 bytes = append_argument Uints.add_uint240 bytes false

unfoldable pub add_uint240_big_int : ℤ → ContractFunctionParameters → ContractFunctionParameters
unfolding to_256_bit_bytes
add_uint240_big_int z = append_argument Uints.add_uint240 (to_256_bit_bytes z) false

unfoldable pub add_uint248 : List ℕ → ContractFunctionParameters → ContractFunctionParameters
add_uint248 bytes = append_argument Uints.add_uint248 bytes false

unfoldable pub add_uint248_big_int : ℤ → ContractFunctionParameters → ContractFunctionParameters
unfolding to_256_bit_bytes
add_uint248_big_int z = append_argument Uints.add_uint248 (to_256_bit_bytes z) false

unfoldable pub add_uint256 : List ℕ → ContractFunctionParameters → ContractFunctionParameters
add_uint256 bytes = append_argument Uints.add_uint256 bytes false

unfoldable pub add_uint256_big_int : ℤ → ContractFunctionParameters → ContractFunctionParameters
unfolding to_256_bit_bytes
add_uint256_big_int z = append_argument Uints.add_uint256 (to_256_bit_bytes z) false
