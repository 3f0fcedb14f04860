-- ===== src/Contract/Params/Ints.antt =====
-- sdk/contract_function_parameters.go: the methods that add a signed integer of more than 64 bits, as
-- bytes that the caller has laid out or as a `*big.Int`.
use hiero_sdk_go.Base.{ℕ, false, List}
use hiero_sdk_go.Base.Int.{ℤ}
use hiero_sdk_go.Contract.{ContractFunctionParameters, append_argument, to_256_bit_bytes}
use hiero_sdk_go.Contract.Selector.Ints

unfoldable pub add_int72 : List ℕ → ContractFunctionParameters → ContractFunctionParameters
add_int72 bytes = append_argument Ints.add_int72 bytes false

unfoldable pub add_int72_big_int : ℤ → ContractFunctionParameters → ContractFunctionParameters
unfolding to_256_bit_bytes
add_int72_big_int z = append_argument Ints.add_int72 (to_256_bit_bytes z) false

unfoldable pub add_int80 : List ℕ → ContractFunctionParameters → ContractFunctionParameters
add_int80 bytes = append_argument Ints.add_int80 bytes false

unfoldable pub add_int80_big_int : ℤ → ContractFunctionParameters → ContractFunctionParameters
unfolding to_256_bit_bytes
add_int80_big_int z = append_argument Ints.add_int80 (to_256_bit_bytes z) false

unfoldable pub add_int88 : List ℕ → ContractFunctionParameters → ContractFunctionParameters
add_int88 bytes = append_argument Ints.add_int88 bytes false

unfoldable pub add_in88_big_int : ℤ → ContractFunctionParameters → ContractFunctionParameters
unfolding to_256_bit_bytes
add_in88_big_int z = append_argument Ints.add_int88 (to_256_bit_bytes z) false

unfoldable pub add_int96 : List ℕ → ContractFunctionParameters → ContractFunctionParameters
add_int96 bytes = append_argument Ints.add_int96 bytes false

unfoldable pub add_int96_big_int : ℤ → ContractFunctionParameters → ContractFunctionParameters
unfolding to_256_bit_bytes
add_int96_big_int z = append_argument Ints.add_int96 (to_256_bit_bytes z) false

unfoldable pub add_int104 : List ℕ → ContractFunctionParameters → ContractFunctionParameters
add_int104 bytes = append_argument Ints.add_int104 bytes false

unfoldable pub add_int104_big_int : ℤ → ContractFunctionParameters → ContractFunctionParameters
unfolding to_256_bit_bytes
add_int104_big_int z = append_argument Ints.add_int104 (to_256_bit_bytes z) false

unfoldable pub add_int112 : List ℕ → ContractFunctionParameters → ContractFunctionParameters
add_int112 bytes = append_argument Ints.add_int112 bytes false

unfoldable pub add_int112_big_int : ℤ → ContractFunctionParameters → ContractFunctionParameters
unfolding to_256_bit_bytes
add_int112_big_int z = append_argument Ints.add_int112 (to_256_bit_bytes z) false

unfoldable pub add_int120 : List ℕ → ContractFunctionParameters → ContractFunctionParameters
add_int120 bytes = append_argument Ints.add_int120 bytes false

unfoldable pub add_int120_big_int : ℤ → ContractFunctionParameters → ContractFunctionParameters
unfolding to_256_bit_bytes
add_int120_big_int z = append_argument Ints.add_int120 (to_256_bit_bytes z) false

unfoldable pub add_int128 : List ℕ → ContractFunctionParameters → ContractFunctionParameters
add_int128 bytes = append_argument Ints.add_int128 bytes false

unfoldable pub add_int128_big_int : ℤ → ContractFunctionParameters → ContractFunctionParameters
unfolding to_256_bit_bytes
add_int128_big_int z = append_argument Ints.add_int128 (to_256_bit_bytes z) false

unfoldable pub add_int136 : List ℕ → ContractFunctionParameters → ContractFunctionParameters
add_int136 bytes = append_argument Ints.add_int136 bytes false

unfoldable pub add_int136_big_int : ℤ → ContractFunctionParameters → ContractFunctionParameters
unfolding to_256_bit_bytes
add_int136_big_int z = append_argument Ints.add_int136 (to_256_bit_bytes z) false

unfoldable pub add_int144 : List ℕ → ContractFunctionParameters → ContractFunctionParameters
add_int144 bytes = append_argument Ints.add_int144 bytes false

unfoldable pub add_int144_big_int : ℤ → ContractFunctionParameters → ContractFunctionParameters
unfolding to_256_bit_bytes
add_int144_big_int z = append_argument Ints.add_int144 (to_256_bit_bytes z) false

unfoldable pub add_int152 : List ℕ → ContractFunctionParameters → ContractFunctionParameters
add_int152 bytes = append_argument Ints.add_int152 bytes false

unfoldable pub add_int152_big_int : ℤ → ContractFunctionParameters → ContractFunctionParameters
unfolding to_256_bit_bytes
add_int152_big_int z = append_argument Ints.add_int152 (to_256_bit_bytes z) false

unfoldable pub add_int160 : List ℕ → ContractFunctionParameters → ContractFunctionParameters
add_int160 bytes = append_argument Ints.add_int160 bytes false

unfoldable pub add_int160_big_int : ℤ → ContractFunctionParameters → ContractFunctionParameters
unfolding to_256_bit_bytes
add_int160_big_int z = append_argument Ints.add_int160 (to_256_bit_bytes z) false

unfoldable pub add_int168 : List ℕ → ContractFunctionParameters → ContractFunctionParameters
add_int168 bytes = append_argument Ints.add_int168 bytes false

unfoldable pub add_int168_big_int : ℤ → ContractFunctionParameters → ContractFunctionParameters
unfolding to_256_bit_bytes
add_int168_big_int z = append_argument Ints.add_int168 (to_256_bit_bytes z) false

unfoldable pub add_int176 : List ℕ → ContractFunctionParameters → ContractFunctionParameters
add_int176 bytes = append_argument Ints.add_int176 bytes false

unfoldable pub add_int176_big_int : ℤ → ContractFunctionParameters → ContractFunctionParameters
unfolding to_256_bit_bytes
add_int176_big_int z = append_argument Ints.add_int176 (to_256_bit_bytes z) false

unfoldable pub add_int184 : List ℕ → ContractFunctionParameters → ContractFunctionParameters
add_int184 bytes = append_argument Ints.add_int184 bytes false

unfoldable pub add_int184_big_int : ℤ → ContractFunctionParameters → ContractFunctionParameters
unfolding to_256_bit_bytes
add_int184_big_int z = append_argument Ints.add_int184 (to_256_bit_bytes z) false

unfoldable pub add_int192 : List ℕ → ContractFunctionParameters → ContractFunctionParameters
add_int192 bytes = append_argument Ints.add_int192 bytes false

unfoldable pub add_int192_big_int : ℤ → ContractFunctionParameters → ContractFunctionParameters
unfolding to_256_bit_bytes
add_int192_big_int z = append_argument Ints.add_int192 (to_256_bit_bytes z) false

unfoldable pub add_int200 : List ℕ → ContractFunctionParameters → ContractFunctionParameters
add_int200 bytes = append_argument Ints.add_int200 bytes false

unfoldable pub add_int200_big_int : ℤ → ContractFunctionParameters → ContractFunctionParameters
unfolding to_256_bit_bytes
add_int200_big_int z = append_argument Ints.add_int200 (to_256_bit_bytes z) false

unfoldable pub add_int208 : List ℕ → ContractFunctionParameters → ContractFunctionParameters
add_int208 bytes = append_argument Ints.add_int208 bytes false

unfoldable pub add_int208_big_int : ℤ → ContractFunctionParameters → ContractFunctionParameters
unfolding to_256_bit_bytes
add_int208_big_int z = append_argument Ints.add_int208 (to_256_bit_bytes z) false

unfoldable pub add_int216 : List ℕ → ContractFunctionParameters → ContractFunctionParameters
add_int216 bytes = append_argument Ints.add_int216 bytes false

unfoldable pub add_int216_big_int : ℤ → ContractFunctionParameters → ContractFunctionParameters
unfolding to_256_bit_bytes
add_int216_big_int z = append_argument Ints.add_int216 (to_256_bit_bytes z) false

unfoldable pub add_int224 : List ℕ → ContractFunctionParameters → ContractFunctionParameters
add_int224 bytes = append_argument Ints.add_int224 bytes false

unfoldable pub add_int224_big_int : ℤ → ContractFunctionParameters → ContractFunctionParameters
unfolding to_256_bit_bytes
add_int224_big_int z = append_argument Ints.add_int224 (to_256_bit_bytes z) false

unfoldable pub add_int232 : List ℕ → ContractFunctionParameters → ContractFunctionParameters
add_int232 bytes = append_argument Ints.add_int232 bytes false

unfoldable pub add_int232_big_int : ℤ → ContractFunctionParameters → ContractFunctionParameters
unfolding to_256_bit_bytes
add_int232_big_int z = append_argument Ints.add_int232 (to_256_bit_bytes z) false

unfoldable pub add_int240 : List ℕ → ContractFunctionParameters → ContractFunctionParameters
add_int240 bytes = append_argument Ints.add_int240 bytes false

unfoldable pub add_int240_big_int : ℤ → ContractFunctionParameters → ContractFunctionParameters
unfolding to_256_bit_bytes
add_int240_big_int z = append_argument Ints.add_int240 (to_256_bit_bytes z) false

unfoldable pub add_int248 : List ℕ → ContractFunctionParameters → ContractFunctionParameters
add_int248 bytes = append_argument Ints.add_int248 bytes false

unfoldable pub add_int248_big_int : ℤ → ContractFunctionParameters → ContractFunctionParameters
unfolding to_256_bit_bytes
add_int248_big_int z = append_argument Ints.add_int248 (to_256_bit_bytes z) false

unfoldable pub add_int256 : List ℕ → ContractFunctionParameters → ContractFunctionParameters
add_int256 bytes = append_argument Ints.add_int256 bytes false

unfoldable pub add_int256_big_int : ℤ → ContractFunctionParameters → ContractFunctionParameters
unfolding to_256_bit_bytes
add_int256_big_int z = append_argument Ints.add_int256 (to_256_bit_bytes z) false
