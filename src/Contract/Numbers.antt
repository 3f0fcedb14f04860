-- ===== src/Contract/Numbers.antt =====
-- sdk/contract_function_parameters.go: all methods that add a number, in tables, and what each writes.
use hiero_sdk_go.Base.{ℕ, List, [], ◌∷◌}
use hiero_sdk_go.Base.Int.{ℤ, pos_part}
use hiero_sdk_go.Abi.{AbiType, int_type, uint_type}
use hiero_sdk_go.Contract.{ContractFunctionParameters}
use hiero_sdk_go.Contract.Names.{
  ArgumentType, a_int8, a_int16, a_int24, a_int32, a_int40, a_int48, a_int56, a_int64, a_int72,
  a_int80, a_int88, a_int96, a_int104, a_int112, a_int120, a_int128, a_int136, a_int144, a_int152,
  a_int160, a_int168, a_int176, a_int184, a_int192, a_int200, a_int208, a_int216, a_int224,
  a_int232, a_int240, a_int248, a_int256, a_uint8, a_uint16, a_uint24, a_uint32, a_uint40, a_uint48,
  a_uint56, a_uint64, a_uint72, a_uint80, a_uint88, a_uint96, a_uint104, a_uint112, a_uint120,
  a_uint128, a_uint136, a_uint144, a_uint152, a_uint160, a_uint168, a_uint176, a_uint184, a_uint192,
  a_uint200, a_uint208, a_uint216, a_uint224, a_uint232, a_uint240, a_uint248, a_uint256,
}
use hiero_sdk_go.Contract.Params.Native
use hiero_sdk_go.Contract.Params.Ints as BigInts
use hiero_sdk_go.Contract.Params.Uints as BigUints

-- The Go type that a method takes: a signed or an unsigned integer of a width, or a `*big.Int`.
pub data NumberKind : Type 0 where
  signed_go unsigned_go : ℕ → NumberKind
  big : NumberKind

-- A method, with the name that it adds to the selector and the type of the codec that the name is of.
pub record NumberMethod : Type 0 where
  pub ty : ArgumentType
  pub abi : AbiType
  pub kind : NumberKind
  pub add : ℤ → ContractFunctionParameters → ContractFunctionParameters

abbrev pub number_method :
    ArgumentType
    → AbiType
    → NumberKind
    → (ℤ → ContractFunctionParameters → ContractFunctionParameters)
    → NumberMethod
number_method ty abi kind add = record { ty = ty; abi = abi; kind = kind; add = add }

abbrev pub signed_methods : List NumberMethod
signed_methods =
    number_method a_int8 (int_type 8) (signed_go 8) Native.add_int8
    ∷ number_method a_int16 (int_type 16) (signed_go 16) Native.add_int16
    ∷ number_method a_int24 (int_type 24) (signed_go 32) Native.add_int24
    ∷ number_method a_int32 (int_type 32) (signed_go 32) Native.add_int32
    ∷ number_method a_int40 (int_type 40) (signed_go 64) Native.add_int40
    ∷ number_method a_int48 (int_type 48) (signed_go 64) Native.add_int48
    ∷ number_method a_int56 (int_type 56) (signed_go 64) Native.add_int56
    ∷ number_method a_int64 (int_type 64) (signed_go 64) Native.add_int64
    ∷ []

abbrev pub unsigned_methods : List NumberMethod
unsigned_methods =
    number_method a_uint8 (uint_type 8) (unsigned_go 8) (λ z. Native.add_uint8 (pos_part z))
    ∷ number_method a_uint16 (uint_type 16) (unsigned_go 16) (λ z. Native.add_uint16 (pos_part z))
    ∷ number_method a_uint24 (uint_type 24) (unsigned_go 32) (λ z. Native.add_uint24 (pos_part z))
    ∷ number_method a_uint32 (uint_type 32) (unsigned_go 32) (λ z. Native.add_uint32 (pos_part z))
    ∷ number_method a_uint40 (uint_type 40) (unsigned_go 64) (λ z. Native.add_uint40 (pos_part z))
    ∷ number_method a_uint48 (uint_type 48) (unsigned_go 64) (λ z. Native.add_uint48 (pos_part z))
    ∷ number_method a_uint56 (uint_type 56) (unsigned_go 64) (λ z. Native.add_uint56 (pos_part z))
    ∷ number_method a_uint64 (uint_type 64) (unsigned_go 64) (λ z. Native.add_uint64 (pos_part z))
    ∷ []

abbrev pub big_int_methods : List NumberMethod
big_int_methods =
    number_method a_int72 (int_type 72) big BigInts.add_int72_big_int
    ∷ number_method a_int80 (int_type 80) big BigInts.add_int80_big_int
    ∷ number_method a_int88 (int_type 88) big BigInts.add_in88_big_int
    ∷ number_method a_int96 (int_type 96) big BigInts.add_int96_big_int
    ∷ number_method a_int104 (int_type 104) big BigInts.add_int104_big_int
    ∷ number_method a_int112 (int_type 112) big BigInts.add_int112_big_int
    ∷ number_method a_int120 (int_type 120) big BigInts.add_int120_big_int
    ∷ number_method a_int128 (int_type 128) big BigInts.add_int128_big_int
    ∷ number_method a_int136 (int_type 136) big BigInts.add_int136_big_int
    ∷ number_method a_int144 (int_type 144) big BigInts.add_int144_big_int
    ∷ number_method a_int152 (int_type 152) big BigInts.add_int152_big_int
    ∷ number_method a_int160 (int_type 160) big BigInts.add_int160_big_int
    ∷ number_method a_int168 (int_type 168) big BigInts.add_int168_big_int
    ∷ number_method a_int176 (int_type 176) big BigInts.add_int176_big_int
    ∷ number_method a_int184 (int_type 184) big BigInts.add_int184_big_int
    ∷ number_method a_int192 (int_type 192) big BigInts.add_int192_big_int
    ∷ number_method a_int200 (int_type 200) big BigInts.add_int200_big_int
    ∷ number_method a_int208 (int_type 208) big BigInts.add_int208_big_int
    ∷ number_method a_int216 (int_type 216) big BigInts.add_int216_big_int
    ∷ number_method a_int224 (int_type 224) big BigInts.add_int224_big_int
    ∷ number_method a_int232 (int_type 232) big BigInts.add_int232_big_int
    ∷ number_method a_int240 (int_type 240) big BigInts.add_int240_big_int
    ∷ number_method a_int248 (int_type 248) big BigInts.add_int248_big_int
    ∷ number_method a_int256 (int_type 256) big BigInts.add_int256_big_int
    ∷ []

abbrev pub big_uint_methods : List NumberMethod
big_uint_methods =
    number_method a_uint72 (uint_type 72) big BigUints.add_uint72_big_int
    ∷ number_method a_uint80 (uint_type 80) big BigUints.add_uint80_big_int
    ∷ number_method a_uint88 (uint_type 88) big BigUints.add_uint88_big_int
    ∷ number_method a_uint96 (uint_type 96) big BigUints.add_uint96_big_int
    ∷ number_method a_uint104 (uint_type 104) big BigUints.add_uint104ig_int
    ∷ number_method a_uint112 (uint_type 112) big BigUints.add_uint112_big_int
    ∷ number_method a_uint120 (uint_type 120) big BigUints.add_uint120_big_int
    ∷ number_method a_uint128 (uint_type 128) big BigUints.add_uint128_big_int
    ∷ number_method a_uint136 (uint_type 136) big BigUints.add_uint136_big_int
    ∷ number_method a_uint144 (uint_type 144) big BigUints.add_uint144_big_int
    ∷ number_method a_uint152 (uint_type 152) big BigUints.add_uint152_big_int
    ∷ number_method a_uint160 (uint_type 160) big BigUints.add_uint160_big_int
    ∷ number_method a_uint168 (uint_type 168) big BigUints.add_uint168_big_int
    ∷ number_method a_uint176 (uint_type 176) big BigUints.add_uint176_big_int
    ∷ number_method a_uint184 (uint_type 184) big BigUints.add_uint184_big_int
    ∷ number_method a_uint192 (uint_type 192) big BigUints.add_uint192_big_int
    ∷ number_method a_uint200 (uint_type 200) big BigUints.add_uint200_big_int
    ∷ number_method a_uint208 (uint_type 208) big BigUints.add_uint208_big_int
    ∷ number_method a_uint216 (uint_type 216) big BigUints.add_uint216_big_int
    ∷ number_method a_uint224 (uint_type 224) big BigUints.add_uint224_big_int
    ∷ number_method a_uint232 (uint_type 232) big BigUints.add_uint232_big_int
    ∷ number_method a_uint240 (uint_type 240) big BigUints.add_uint240_big_int
    ∷ number_method a_uint248 (uint_type 248) big BigUints.add_uint248_big_int
    ∷ number_method a_uint256 (uint_type 256) big BigUints.add_uint256_big_int
    ∷ []
