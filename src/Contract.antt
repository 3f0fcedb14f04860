-- ===== src/Contract.antt =====
-- sdk/contract_function_parameters.go, sdk/contract_function_selector.go, sdk/math.go: the builder of
-- the parameters of a contract call, the selector that it keeps beside them, and the parts that its
-- methods share. The methods themselves are in the children.
pub mod Names
pub mod Selector
pub mod Params
pub mod Layout
pub mod Integers
pub mod Numbers
pub mod Writes
pub mod ReadBack
pub mod ArrayWrites
mod Tests
use hiero_sdk_go.Base.{
  ℕ, zero, suc, ◌+◌, ◌-◌, ◌*◌, ◌/◌, ◌%◌, ◌^◌, Bool, true, false, Option, none, some, List, [], ◌∷◌,
  ◌++◌, leb, ltb, ◌==◌, if◌then◌else◌, length, take, drop,
}
use hiero_sdk_go.Base.Int.{ℤ, pos, negsuc}
use hiero_sdk_go.Base.Text.{Text, codes}
use hiero_sdk_go.Abi.{Result, ok, failed, panicked, ◌>>=◌}
use hiero_sdk_go.Abi.Words.{zeros, low_bytes, big_bytes, and_mask}
use hiero_sdk_go.Contract.Names.{ArgumentType, argument_text}

-- `_Solidity`
pub record Solidity : Type 0 where
  pub ty : ArgumentType
  pub is_array : Bool

pub record ContractFunctionSelector : Type 0 where
  pub function : Option Text
  pub params : Text
  pub param_types : List Solidity

pub record Argument : Type 0 where
  pub value : List ℕ
  pub dynamic : Bool

-- `ContractFunctionParameters`
pub record ContractFunctionParameters : Type 0 where
  pub function : ContractFunctionSelector
  pub arguments : List Argument

unfoldable pub new_selector : Text → ContractFunctionSelector
new_selector [] = record { function = none; params = []; param_types = [] }
new_selector (c ∷ s) = record { function = some (c ∷ s); params = []; param_types = [] }

unfoldable pub new_params : ContractFunctionParameters
unfolding new_selector
new_params = record { function = new_selector []; arguments = [] }

abbrev comma_before : List Solidity → Text
comma_before [] = []
comma_before (t ∷ ts) = codes ","

abbrev brackets : Bool → Text
brackets true = codes "[]"
brackets false = []

-- `_AddParam`
unfoldable pub add_param : ArgumentType → Bool → ContractFunctionSelector → ContractFunctionSelector
add_param ty is_array s = record s {
  params = s.params ++ (comma_before s.param_types ++ (argument_text ty ++ brackets is_array));
  param_types = s.param_types ++ (record { ty = ty; is_array = is_array } ∷ []);
}

abbrev or_empty : Option Text → Text
or_empty none = []
or_empty (some s) = s

-- `String`
unfoldable pub selector_string : ContractFunctionSelector → Text
selector_string s = or_empty s.function ++ (codes "(" ++ (s.params ++ codes ")"))

abbrev named : ContractFunctionSelector → Option Text → Result ContractFunctionSelector
named s (some f) = ok (record s { function = some f })
named s none = elim s.function [ none ↦ panicked | some f ↦ ok s ]

-- `_Build` of the selector: the first bytes of the hash, which another library computes.
unfoldable pub build_selector :
    (Text → List ℕ) → Option Text → ContractFunctionSelector → Result (List ℕ)
unfolding selector_string
build_selector keccak f s = named s f >>= λ s'. ok (take 4 (keccak (selector_string s')))

-- A method's last two statements, with the selector's method.
unfoldable pub append_argument :
    (ContractFunctionSelector → ContractFunctionSelector)
    → List ℕ
    → Bool
    → ContractFunctionParameters
    → ContractFunctionParameters
append_argument select bytes dynamic c = record c {
  function = select c.function;
  arguments = c.arguments ++ (record { value = bytes; dynamic = dynamic } ∷ []);
}

-- `_NewArgument`
abbrev pub new_argument : List ℕ
new_argument = zeros 32

abbrev pub ones : ℕ → List ℕ
ones zero = []
ones (suc k) = 0xFF ∷ ones k

-- `_NewIntArgument`
unfoldable pub new_int_argument : ℤ → List ℕ
new_int_argument (pos zero) = ones 32
new_int_argument (pos (suc n)) = zeros 32
new_int_argument (negsuc n) = ones 32

-- A Go conversion to an unsigned integer of `w` bits.
abbrev pub to_unsigned : ℕ → ℤ → ℕ
to_unsigned w (pos n) = n % 2 ^ w
to_unsigned w (negsuc n) = 2 ^ w - 1 - n % 2 ^ w

-- A write of bytes over the last ones of a word: an assignment at 31, or one of `PutUint16`,
-- `PutUint32` and `PutUint64`.
unfoldable pub put_last : List ℕ → List ℕ → List ℕ
put_last base bytes = take (length base - length bytes) base ++ bytes

-- `FillBytes` of a buffer of 32 bytes.
unfoldable pub fill_bytes : ℕ → List ℕ
fill_bytes n = low_bytes 32 n []

-- `ToPaddedBytes` to 32 bytes; `BitLen()/8 >= 32` holds from 2 ^ 255 on.
unfoldable pub to_padded_bytes : ℕ → List ℕ
unfolding fill_bytes
to_padded_bytes n = if leb (2 ^ 255) n then big_bytes 32 n [] else fill_bytes n

-- `To256BitBytes`
unfoldable pub to_256_bit_bytes : ℤ → List ℕ
unfolding to_padded_bytes
to_256_bit_bytes z = to_padded_bytes (and_mask z)

-- `copy` over the start of a buffer.
abbrev pub overwrite : List ℕ → List ℕ → List ℕ
overwrite [] bytes = []
overwrite (x ∷ xs) [] = x ∷ xs
overwrite (x ∷ xs) (b ∷ bytes) = b ∷ overwrite xs bytes

-- `copy` over a buffer from an index on.
unfoldable pub write_at : List ℕ → ℕ → List ℕ → List ℕ
write_at buffer i bytes = take i buffer ++ overwrite (drop i buffer) bytes

-- The number of bytes that `_Build` allocates for the arguments.
unfoldable pub total_length : List Argument → ℕ
total_length [] = 0
total_length (a ∷ args) = 32 + (if a.dynamic then length a.value else 0) + total_length args

-- `PutUint64` of an offset at the end of the `j`-th head, and a copy of the argument behind.
abbrev write_dynamic : List ℕ → ℕ → ℕ → ℕ → List ℕ → List ℕ
write_dynamic result start j offset bytes =
    write_at (write_at result (j * 32 + start + 24) (low_bytes 8 offset [])) (offset + start) bytes

-- The loop of `_Build`, at the `j`-th argument, behind `start` bytes of the selector.
unfoldable pub build_loop : List Argument → ℕ → ℕ → ℕ → List ℕ → List ℕ
unfolding write_at
build_loop [] j start offset result = result
build_loop (a ∷ args) j start offset result =
    build_loop args (suc j) start (if a.dynamic then offset + length a.value else offset) (
      if a.dynamic
      then write_dynamic result start j offset a.value
      else write_at result (j * 32 + start) (take 32 a.value))

abbrev build_from : List Argument → List ℕ → ℕ → List ℕ
build_from args prefix n =
    build_loop args 0 (length prefix) (n * 32) (prefix ++ zeros (total_length args))

-- `_Build`: the four bytes of the selector, where there is a function name, and the arguments.
unfoldable pub build : (Text → List ℕ) → Option Text → ContractFunctionParameters → Result (List ℕ)
unfolding build_selector build_loop total_length
build keccak none c = ok (build_from c.arguments [] (length c.arguments))
build keccak (some f) c = do
  selector ← build_selector keccak (some f) c.function
  ok (build_from c.arguments (overwrite (zeros 4) selector) (length c.arguments))
