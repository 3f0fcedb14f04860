-- ===== src/Contract/Selector/Ints.antt =====
-- sdk/contract_function_selector.go: the methods that add a parameter of a signed integer type to a selector.
use hiero_sdk_go.Base.{false}
use hiero_sdk_go.Contract.{ContractFunctionSelector, add_param}
use hiero_sdk_go.Contract.Names.{
  a_int104, a_int112, a_int120, a_int128, a_int136, a_int144, a_int152, a_int16, a_int160, a_int168,
  a_int176, a_int184, a_int192, a_int200, a_int208, a_int216, a_int224, a_int232, a_int24, a_int240,
  a_int248, a_int256, a_int32, a_int40, a_int48, a_int56, a_int64, a_int72, a_int8, a_int80,
  a_int88, a_int96,
}

unfoldable pub add_int8 : ContractFunctionSelector → ContractFunctionSelector
add_int8 = add_param a_int8 false

unfoldable pub add_int16 : ContractFunctionSelector → ContractFunctionSelector
add_int16 = add_param a_int16 false

unfoldable pub add_int24 : ContractFunctionSelector → ContractFunctionSelector
add_int24 = add_param a_int24 false

unfoldable pub add_int32 : ContractFunctionSelector → ContractFunctionSelector
add_int32 = add_param a_int32 false

unfoldable pub add_int40 : ContractFunctionSelector → ContractFunctionSelector
add_int40 = add_param a_int40 false

unfoldable pub add_int48 : ContractFunctionSelector → ContractFunctionSelector
add_int48 = add_param a_int48 false

unfoldable pub add_int56 : ContractFunctionSelector → ContractFunctionSelector
add_int56 = add_param a_int56 false

unfoldable pub add_int64 : ContractFunctionSelector → ContractFunctionSelector
add_int64 = add_param a_int64 false

unfoldable pub add_int72 : ContractFunctionSelector → ContractFunctionSelector
add_int72 = add_param a_int72 false

unfoldable pub add_int80 : ContractFunctionSelector → ContractFunctionSelector
add_int80 = add_param a_int80 false

unfoldable pub add_int88 : ContractFunctionSelector → ContractFunctionSelector
add_int88 = add_param a_int88 false

unfoldable pub add_int96 : ContractFunctionSelector → ContractFunctionSelector
add_int96 = add_param a_int96 false

unfoldable pub add_int104 : ContractFunctionSelector → ContractFunctionSelector
add_int104 = add_param a_int104 false

unfoldable pub add_int112 : ContractFunctionSelector → ContractFunctionSelector
add_int112 = add_param a_int112 false

unfoldable pub add_int120 : ContractFunctionSelector → ContractFunctionSelector
add_int120 = add_param a_int120 false

unfoldable pub add_int128 : ContractFunctionSelector → ContractFunctionSelector
add_int128 = add_param a_int128 false

unfoldable pub add_int136 : ContractFunctionSelector → ContractFunctionSelector
add_int136 = add_param a_int136 false

unfoldable pub add_int144 : ContractFunctionSelector → ContractFunctionSelector
add_int144 = add_param a_int144 false

unfoldable pub add_int152 : ContractFunctionSelector → ContractFunctionSelector
add_int152 = add_param a_int152 false

unfoldable pub add_int160 : ContractFunctionSelector → ContractFunctionSelector
add_int160 = add_param a_int160 false

unfoldable pub add_int168 : ContractFunctionSelector → ContractFunctionSelector
add_int168 = add_param a_int168 false

unfoldable pub add_int176 : ContractFunctionSelector → ContractFunctionSelector
add_int176 = add_param a_int176 false

unfoldable pub add_int184 : ContractFunctionSelector → ContractFunctionSelector
add_int184 = add_param a_int184 false

unfoldable pub add_int192 : ContractFunctionSelector → ContractFunctionSelector
add_int192 = add_param a_int192 false

unfoldable pub add_int200 : ContractFunctionSelector → ContractFunctionSelector
add_int200 = add_param a_int200 false

unfoldable pub add_int208 : ContractFunctionSelector → ContractFunctionSelector
add_int208 = add_param a_int208 false

unfoldable pub add_int216 : ContractFunctionSelector → ContractFunctionSelector
add_int216 = add_param a_int216 false

unfoldable pub add_int224 : ContractFunctionSelector → ContractFunctionSelector
add_int224 = add_param a_int224 false

unfoldable pub add_int232 : ContractFunctionSelector → ContractFunctionSelector
add_int232 = add_param a_int232 false

unfoldable pub add_int240 : ContractFunctionSelector → ContractFunctionSelector
add_int240 = add_param a_int240 false

unfoldable pub add_int248 : ContractFunctionSelector → ContractFunctionSelector
add_int248 = add_param a_int248 false

unfoldable pub add_int256 : ContractFunctionSelector → ContractFunctionSelector
add_int256 = add_param a_int256 false
