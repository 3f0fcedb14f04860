-- ===== src/Contract/Names.antt =====
-- sdk/contract_function_selector.go: the names of the parameter types of a contract function.
use hiero_sdk_go.Base.Text.{Text, codes}

-- The constants of the type `argument`.
pub data ArgumentType : Type 0 where
  a_bool a_string a_int8 a_int16 a_int24 a_int32 a_int40 a_int48 : ArgumentType
  a_int56 a_int64 a_int72 : ArgumentType
  a_int80 a_int88 a_int96 a_int104 a_int112 a_int120 a_int128 a_int136 : ArgumentType
  a_int144 a_int152 : ArgumentType
  a_int160 a_int168 a_int176 a_int184 a_int192 a_int200 a_int208 a_int216 : ArgumentType
  a_int224 a_int232 : ArgumentType
  a_int240 a_int248 a_int256 a_uint8 a_uint16 a_uint24 a_uint32 a_uint40 : ArgumentType
  a_uint48 a_uint56 : ArgumentType
  a_uint64 a_uint72 a_uint80 a_uint88 a_uint96 a_uint104 a_uint112 a_uint120 : ArgumentType
  a_uint128 : ArgumentType
  a_uint136 a_uint144 a_uint152 a_uint160 a_uint168 a_uint176 a_uint184 a_uint192 : ArgumentType
  a_uint200 : ArgumentType
  a_uint208 a_uint216 a_uint224 a_uint232 a_uint240 a_uint248 a_uint256 a_bytes : ArgumentType
  a_bytes32 : ArgumentType
  a_function a_address : ArgumentType

-- Their texts.
unfoldable pub argument_text : ArgumentType → Text
argument_text a_bool = codes "bool"
argument_text a_string = codes "string"
argument_text a_int8 = codes "int8"
argument_text a_int16 = codes "int16"
argument_text a_int24 = codes "int24"
argument_text a_int32 = codes "int32"
argument_text a_int40 = codes "int40"
argument_text a_int48 = codes "int48"
argument_text a_int56 = codes "int56"
argument_text a_int64 = codes "int64"
argument_text a_int72 = codes "int72"
argument_text a_int80 = codes "int80"
argument_text a_int88 = codes "int88"
argument_text a_int96 = codes "int96"
argument_text a_int104 = codes "int104"
argument_text a_int112 = codes "int112"
argument_text a_int120 = codes "int120"
argument_text a_int128 = codes "int128"
argument_text a_int136 = codes "int136"
argument_text a_int144 = codes "int144"
argument_text a_int152 = codes "int152"
argument_text a_int160 = codes "int160"
argument_text a_int168 = codes "int168"
argument_text a_int176 = codes "int176"
argument_text a_int184 = codes "int184"
argument_text a_int192 = codes "int192"
argument_text a_int200 = codes "int200"
argument_text a_int208 = codes "int208"
argument_text a_int216 = codes "int216"
argument_text a_int224 = codes "int224"
argument_text a_int232 = codes "int232"
argument_text a_int240 = codes "int240"
argument_text a_int248 = codes "int248"
argument_text a_int256 = codes "int256"
argument_text a_uint8 = codes "uint8"
argument_text a_uint16 = codes "uint16"
argument_text a_uint24 = codes "uint24"
argument_text a_uint32 = codes "uint32"
argument_text a_uint40 = codes "uint40"
argument_text a_uint48 = codes "uint48"
argument_text a_uint56 = codes "uint56"
argument_text a_uint64 = codes "uint64"
argument_text a_uint72 = codes "uint72"
argument_text a_uint80 = codes "uint80"
argument_text a_uint88 = codes "uint88"
argument_text a_uint96 = codes "uint96"
argument_text a_uint104 = codes "uint104"
argument_text a_uint112 = codes "uint112"
argument_text a_uint120 = codes "uint120"
argument_text a_uint128 = codes "uint128"
argument_text a_uint136 = codes "uint136"
argument_text a_uint144 = codes "uint144"
argument_text a_uint152 = codes "uint152"
argument_text a_uint160 = codes "uint160"
argument_text a_uint168 = codes "uint168"
argument_text a_uint176 = codes "uint176"
argument_text a_uint184 = codes "uint184"
argument_text a_uint192 = codes "uint192"
argument_text a_uint200 = codes "uint200"
argument_text a_uint208 = codes "uint208"
argument_text a_uint216 = codes "uint216"
argument_text a_uint224 = codes "uint224"
argument_text a_uint232 = codes "uint232"
argument_text a_uint240 = codes "uint240"
argument_text a_uint248 = codes "uint248"
argument_text a_uint256 = codes "uint256"
argument_text a_bytes = codes "bytes"
argument_text a_bytes32 = codes "bytes32"
argument_text a_function = codes "function"
argument_text a_address = codes "address"
