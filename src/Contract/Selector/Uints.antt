-- ===== src/Contract/Selector/Uints.antt =====
-- sdk/contract_function_selector.go: the methods that add a parameter of an unsigned integer type to a selector.
use hiero_sdk_go.Base.{false}
use hiero_sdk_go.Contract.{ContractFunctionSelector, add_param}
use hiero_sdk_go.Contract.Names.{
  a_uint104, a_uint112, a_uint120, a_uint128, a_uint136, a_uint144, a_uint152, a_uint16, a_uint160,
  a_uint168, a_uint176, a_uint184, a_uint192, a_uint200, a_uint208, a_uint216, a_uint224, a_uint232,
  a_uint24, a_uint240, a_uint248, a_uint256, a_uint32, a_uint40, a_uint48, a_uint56, a_uint64,
  a_uint72, a_uint8, a_uint80, a_uint88, a_uint96,
}

unfoldable pub add_uint8 : ContractFunctionSelector → ContractFunctionSelector
add_uint8 = add_param a_uint8 false

unfoldable pub add_uint16 : ContractFunctionSelector → ContractFunctionSelector
add_uint16 = add_param a_uint16 false

unfoldable pub add_uint24 : ContractFunctionSelector → ContractFunctionSelector
add_uint24 = add_param a_uint24 false

unfoldable pub add_uint32 : ContractFunctionSelector → ContractFunctionSelector
add_uint32 = add_param a_uint32 false

unfoldable pub add_uint40 : ContractFunctionSelector → ContractFunctionSelector
add_uint40 = add_param a_uint40 false

unfoldable pub add_uint48 : ContractFunctionSelector → ContractFunctionSelector
add_uint48 = add_param a_uint48 false

unfoldable pub add_uint56 : ContractFunctionSelector → ContractFunctionSelector
add_uint56 = add_param a_uint56 false

unfoldable pub add_uint64 : ContractFunctionSelector → ContractFunctionSelector
add_uint64 = add_param a_uint64 false

unfoldable pub add_uint72 : ContractFunctionSelector → ContractFunctionSelector
add_uint72 = add_param a_uint72 false

unfoldable pub add_uint80 : ContractFunctionSelector → ContractFunctionSelector
add_uint80 = add_param a_uint80 false

unfoldable pub add_uint88 : ContractFunctionSelector → ContractFunctionSelector
add_uint88 = add_param a_uint88 false

unfoldable pub add_uint96 : ContractFunctionSelector → ContractFunctionSelector
add_uint96 = add_param a_uint96 false

unfoldable pub add_uint104 : ContractFunctionSelector → ContractFunctionSelector
add_uint104 = add_param a_uint104 false

unfoldable pub add_uint112 : ContractFunctionSelector → ContractFunctionSelector
add_uint112 = add_param a_uint112 false

unfoldable pub add_uint120 : ContractFunctionSelector → ContractFunctionSelector
add_uint120 = add_param a_uint120 false

unfoldable pub add_uint128 : ContractFunctionSelector → ContractFunctionSelector
add_uint128 = add_param a_uint128 false

unfoldable pub add_uint136 : ContractFunctionSelector → ContractFunctionSelector
add_uint136 = add_param a_uint136 false

unfoldable pub add_uint144 : ContractFunctionSelector → ContractFunctionSelector
add_uint144 = add_param a_uint144 false

unfoldable pub add_uint152 : ContractFunctionSelector → ContractFunctionSelector
add_uint152 = add_param a_uint152 false

unfoldable pub add_uint160 : ContractFunctionSelector → ContractFunctionSelector
add_uint160 = add_param a_uint160 false

unfoldable pub add_uint168 : ContractFunctionSelector → ContractFunctionSelector
add_uint168 = add_param a_uint168 false

unfoldable pub add_uint176 : ContractFunctionSelector → ContractFunctionSelector
add_uint176 = add_param a_uint176 false

unfoldable pub add_uint184 : ContractFunctionSelector → ContractFunctionSelector
add_uint184 = add_param a_uint184 false

unfoldable pub add_uint192 : ContractFunctionSelector → ContractFunctionSelector
add_uint192 = add_param a_uint192 false

unfoldable pub add_uint200 : ContractFunctionSelector → ContractFunctionSelector
add_uint200 = add_param a_uint200 false

unfoldable pub add_uint208 : ContractFunctionSelector → ContractFunctionSelector
add_uint208 = add_param a_uint208 false

unfoldable pub add_uint216 : ContractFunctionSelector → ContractFunctionSelector
add_uint216 = add_param a_uint216 false

unfoldable pub add_uint224 : ContractFunctionSelector → ContractFunctionSelector
add_uint224 = add_param a_uint224 false

unfoldable pub add_uint232 : ContractFunctionSelector → ContractFunctionSelector
add_uint232 = add_param a_uint232 false

unfoldable pub add_uint240 : ContractFunctionSelector → ContractFunctionSelector
add_uint240 = add_param a_uint240 false

unfoldable pub add_uint248 : ContractFunctionSelector → ContractFunctionSelector
add_uint248 = add_param a_uint248 false

unfoldable pub add_uint256 : ContractFunctionSelector → ContractFunctionSelector
add_uint256 = add_param a_uint256 false
