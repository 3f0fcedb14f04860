-- ===== src/Contract/Selector/Others.antt =====
-- sdk/contract_function_selector.go: the methods that add a parameter of another type, or an array to a selector.
use hiero_sdk_go.Base.{true, false}
use hiero_sdk_go.Contract.{ContractFunctionSelector, add_param}
use hiero_sdk_go.Contract.Names.{
  a_address, a_bool, a_bytes, a_bytes32, a_function, a_int256, a_int32, a_int64, a_int8, a_string,
  a_uint256, a_uint32, a_uint64, a_uint8,
}

unfoldable pub add_function : ContractFunctionSelector → ContractFunctionSelector
add_function = add_param a_function false

unfoldable pub add_address : ContractFunctionSelector → ContractFunctionSelector
add_address = add_param a_address false

unfoldable pub add_bool : ContractFunctionSelector → ContractFunctionSelector
add_bool = add_param a_bool false

unfoldable pub add_string : ContractFunctionSelector → ContractFunctionSelector
add_string = add_param a_string false

unfoldable pub add_bytes : ContractFunctionSelector → ContractFunctionSelector
add_bytes = add_param a_bytes false

unfoldable pub add_bytes32 : ContractFunctionSelector → ContractFunctionSelector
add_bytes32 = add_param a_bytes32 false

unfoldable pub add_address_array : ContractFunctionSelector → ContractFunctionSelector
add_address_array = add_param a_address true

unfoldable pub add_bool_array : ContractFunctionSelector → ContractFunctionSelector
add_bool_array = add_param a_bool true

unfoldable pub add_string_array : ContractFunctionSelector → ContractFunctionSelector
add_string_array = add_param a_string true

unfoldable pub add_int8_array : ContractFunctionSelector → ContractFunctionSelector
add_int8_array = add_param a_int8 true

unfoldable pub add_int32_array : ContractFunctionSelector → ContractFunctionSelector
add_int32_array = add_param a_int32 true

unfoldable pub add_int64_array : ContractFunctionSelector → ContractFunctionSelector
add_int64_array = add_param a_int64 true

unfoldable pub add_int256_array : ContractFunctionSelector → ContractFunctionSelector
add_int256_array = add_param a_int256 true

unfoldable pub add_uint8_array : ContractFunctionSelector → ContractFunctionSelector
add_uint8_array = add_param a_uint8 true

unfoldable pub add_uint32_array : ContractFunctionSelector → ContractFunctionSelector
add_uint32_array = add_param a_uint32 true

unfoldable pub add_uint64_array : ContractFunctionSelector → ContractFunctionSelector
add_uint64_array = add_param a_uint64 true

unfoldable pub add_uint256_array : ContractFunctionSelector → ContractFunctionSelector
add_uint256_array = add_param a_uint256 true

unfoldable pub add_bytes_array : ContractFunctionSelector → ContractFunctionSelector
add_bytes_array = add_param a_bytes true

unfoldable pub add_bytes32_array : ContractFunctionSelector → ContractFunctionSelector
add_bytes32_array = add_param a_bytes32 true
