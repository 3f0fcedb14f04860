-- ===== src/Contract/Writes.antt =====
-- sdk/contract_function_parameters.go: what each method that adds a number writes.
use hiero_sdk_go.Base.{
  ℕ, zero, suc, ◌-◌, ◌^◌, ◌<◌, ◌≡◌, ◌≢◌, refl, sym, ap, ◌∙◌, false, List, [], ◌∷◌, ◌++◌, some,
  get_elem?, All, arith,
}
use hiero_sdk_go.Base.Int.{ℤ, pos, negsuc, pos_part, neg_part}
use hiero_sdk_go.Base.Text.{format_uint}
use hiero_sdk_go.Abi.Format.{format}
use hiero_sdk_go.Abi.Spec.{InRange}
use hiero_sdk_go.Abi.Words.{word, u256, u256-pos}
use hiero_sdk_go.Contract.{
  ContractFunctionParameters, append_argument, add_param, put_last, new_int_argument,
}
use hiero_sdk_go.Contract.Names.{
  argument_text, ArgumentType, a_int8, a_int16, a_int24, a_int32, a_int40, a_int48, a_int56,
  a_int64, a_int72, a_int80, a_int88, a_int96, a_int104, a_int112, a_int120, a_int128, a_int136,
  a_int144, a_int152, a_int160, a_int168, a_int176, a_int184, a_int192, a_int200, a_int208,
  a_int216, a_int224, a_int232, a_int240, a_int248, a_int256, a_uint8, a_uint16, a_uint24, a_uint32,
  a_uint40, a_uint48, a_uint56, a_uint64, a_uint72, a_uint80, a_uint88, a_uint96, a_uint104,
  a_uint112, a_uint120, a_uint128, a_uint136, a_uint144, a_uint152, a_uint160, a_uint168, a_uint176,
  a_uint184, a_uint192, a_uint200, a_uint208, a_uint216, a_uint224, a_uint232, a_uint240, a_uint248,
  a_uint256,
}
use hiero_sdk_go.Contract.Integers.{
  int_argument_1, int_argument_2, int_argument_4, int_argument_8, uint_argument_1, uint_argument_2,
  uint_argument_4, uint_argument_8, to_256_bit_bytes_lem,
}
use hiero_sdk_go.Contract.Numbers.{
  NumberKind, signed_go, unsigned_go, big, NumberMethod, signed_methods, unsigned_methods,
  big_int_methods, big_uint_methods,
}
use hiero_sdk_go.Contract.Params.Native
use hiero_sdk_go.Contract.Params.Ints as BigInts
use hiero_sdk_go.Contract.Params.Uints as BigUints
use hiero_sdk_go.Contract.Selector.Ints as SelInts
use hiero_sdk_go.Contract.Selector.Uints as SelUints

-- The numbers that a method takes: those of its Go type, zero left out where that is signed.
abbrev pub Accepts : NumberKind → ℤ → Type 0
Accepts (signed_go w) z = (z ≢ pos 0) × InRange w z
Accepts (unsigned_go w) z = (neg_part z ≡ 0) × (pos_part z < 2 ^ w)
Accepts big z = Unit {0}

-- The method adds its type to the selector, and the word of the number to the arguments.
abbrev Writes : NumberMethod → Type 0
Writes m =
    (z : ℤ) (c : ContractFunctionParameters)
    → Accepts m.kind z
    → m.add z c ≡ append_argument (add_param m.ty false) (word (u256 z)) false c

-- The text of the method's type.
abbrev Named : NumberMethod → Type 0
Named m = argument_text m.ty ≡ format false m.abi

unsigned_word : (z : ℤ) → neg_part z ≡ 0 → pos_part z < 2 ^ 256 → word (pos_part z) ≡ word (u256 z)
unsigned_word (pos n) h k = ap word (sym (u256-pos n k))
unsigned_word (negsuc n) h k = absurd (omega arith)

-- What holds of the first element, and of the others.
infixr 3 ◌&◌
◌&◌ {ℓ κ} : {A : Type ℓ} {B : Type κ} → A → B → A × B
a & b = (a, b)

written :
    (ty : ArgumentType) (c : ContractFunctionParameters) {b b' : List ℕ}
    → b ≡ b'
    → append_argument (add_param ty false) b false c
      ≡ append_argument (add_param ty false) b' false c
written ty c e = ap (λ l. append_argument (add_param ty false) l false c) e

signed_methods_write : All Writes signed_methods
unfolding Native.add_int8 Native.add_int16 Native.add_int24 Native.add_int32 Native.add_int40
    Native.add_int48 Native.add_int56 Native.add_int64 SelInts.add_int8 SelInts.add_int16
    SelInts.add_int24 SelInts.add_int32 SelInts.add_int40 SelInts.add_int48 SelInts.add_int56
    SelInts.add_int64
signed_methods_write =
    (λ z c h. written a_int8 c (int_argument_1 z h.0 h.1))
    & (λ z c h. written a_int16 c (int_argument_2 z h.0 h.1))
    & (λ z c h. written a_int24 c (int_argument_4 z h.0 h.1))
    & (λ z c h. written a_int32 c (int_argument_4 z h.0 h.1))
    & (λ z c h. written a_int40 c (int_argument_8 z h.0 h.1))
    & (λ z c h. written a_int48 c (int_argument_8 z h.0 h.1))
    & (λ z c h. written a_int56 c (int_argument_8 z h.0 h.1))
    & (λ z c h. written a_int64 c (int_argument_8 z h.0 h.1))
    & tt

signed_methods-Named : All Named signed_methods
unfolding argument_text format_uint format
signed_methods-Named = refl & refl & refl & refl & refl & refl & refl & refl & tt

unsigned_methods_write : All Writes unsigned_methods
unfolding Native.add_uint8 Native.add_uint16 Native.add_uint24 Native.add_uint32 Native.add_uint40
    Native.add_uint48 Native.add_uint56 Native.add_uint64 SelUints.add_uint8 SelUints.add_uint16
    SelUints.add_uint24 SelUints.add_uint32 SelUints.add_uint40 SelUints.add_uint48
    SelUints.add_uint56 SelUints.add_uint64
unsigned_methods_write =
    (λ z c h.
      written a_uint8 c (uint_argument_1 (pos_part z) h.1 ∙ unsigned_word z h.0 (omega arith)))
    & (λ z c h.
        written a_uint16 c (uint_argument_2 (pos_part z) h.1 ∙ unsigned_word z h.0 (omega arith)))
    & (λ z c h.
        written a_uint24 c (uint_argument_4 (pos_part z) h.1 ∙ unsigned_word z h.0 (omega arith)))
    & (λ z c h.
        written a_uint32 c (uint_argument_4 (pos_part z) h.1 ∙ unsigned_word z h.0 (omega arith)))
    & (λ z c h.
        written a_uint40 c (uint_argument_8 (pos_part z) h.1 ∙ unsigned_word z h.0 (omega arith)))
    & (λ z c h.
        written a_uint48 c (uint_argument_8 (pos_part z) h.1 ∙ unsigned_word z h.0 (omega arith)))
    & (λ z c h.
        written a_uint56 c (uint_argument_8 (pos_part z) h.1 ∙ unsigned_word z h.0 (omega arith)))
    & (λ z c h.
        written a_uint64 c (uint_argument_8 (pos_part z) h.1 ∙ unsigned_word z h.0 (omega arith)))
    & tt

unsigned_methods-Named : All Named unsigned_methods
unfolding argument_text format_uint format
unsigned_methods-Named = refl & refl & refl & refl & refl & refl & refl & refl & tt

big_int_methods_write : All Writes big_int_methods
unfolding BigInts.add_int72_big_int BigInts.add_int80_big_int BigInts.add_in88_big_int
    BigInts.add_int96_big_int BigInts.add_int104_big_int BigInts.add_int112_big_int
    BigInts.add_int120_big_int BigInts.add_int128_big_int BigInts.add_int136_big_int
    BigInts.add_int144_big_int BigInts.add_int152_big_int BigInts.add_int160_big_int
    BigInts.add_int168_big_int BigInts.add_int176_big_int BigInts.add_int184_big_int
    BigInts.add_int192_big_int BigInts.add_int200_big_int BigInts.add_int208_big_int
    BigInts.add_int216_big_int BigInts.add_int224_big_int BigInts.add_int232_big_int
    BigInts.add_int240_big_int BigInts.add_int248_big_int BigInts.add_int256_big_int
    SelInts.add_int72 SelInts.add_int80 SelInts.add_int88 SelInts.add_int96 SelInts.add_int104
    SelInts.add_int112 SelInts.add_int120 SelInts.add_int128 SelInts.add_int136 SelInts.add_int144
    SelInts.add_int152 SelInts.add_int160 SelInts.add_int168 SelInts.add_int176 SelInts.add_int184
    SelInts.add_int192 SelInts.add_int200 SelInts.add_int208 SelInts.add_int216 SelInts.add_int224
    SelInts.add_int232 SelInts.add_int240 SelInts.add_int248 SelInts.add_int256
big_int_methods_write =
    (λ z c h. written a_int72 c (to_256_bit_bytes_lem z))
    & (λ z c h. written a_int80 c (to_256_bit_bytes_lem z))
    & (λ z c h. written a_int88 c (to_256_bit_bytes_lem z))
    & (λ z c h. written a_int96 c (to_256_bit_bytes_lem z))
    & (λ z c h. written a_int104 c (to_256_bit_bytes_lem z))
    & (λ z c h. written a_int112 c (to_256_bit_bytes_lem z))
    & (λ z c h. written a_int120 c (to_256_bit_bytes_lem z))
    & (λ z c h. written a_int128 c (to_256_bit_bytes_lem z))
    & (λ z c h. written a_int136 c (to_256_bit_bytes_lem z))
    & (λ z c h. written a_int144 c (to_256_bit_bytes_lem z))
    & (λ z c h. written a_int152 c (to_256_bit_bytes_lem z))
    & (λ z c h. written a_int160 c (to_256_bit_bytes_lem z))
    & (λ z c h. written a_int168 c (to_256_bit_bytes_lem z))
    & (λ z c h. written a_int176 c (to_256_bit_bytes_lem z))
    & (λ z c h. written a_int184 c (to_256_bit_bytes_lem z))
    & (λ z c h. written a_int192 c (to_256_bit_bytes_lem z))
    & (λ z c h. written a_int200 c (to_256_bit_bytes_lem z))
    & (λ z c h. written a_int208 c (to_256_bit_bytes_lem z))
    & (λ z c h. written a_int216 c (to_256_bit_bytes_lem z))
    & (λ z c h. written a_int224 c (to_256_bit_bytes_lem z))
    & (λ z c h. written a_int232 c (to_256_bit_bytes_lem z))
    & (λ z c h. written a_int240 c (to_256_bit_bytes_lem z))
    & (λ z c h. written a_int248 c (to_256_bit_bytes_lem z))
    & (λ z c h. written a_int256 c (to_256_bit_bytes_lem z))
    & tt

big_int_methods-Named : All Named big_int_methods
unfolding argument_text format_uint format
big_int_methods-Named =
    refl & refl & refl & refl & refl & refl & refl & refl & refl & refl & refl & refl & refl & refl
    & refl & refl & refl & refl & refl & refl & refl & refl & refl & refl & tt

big_uint_methods_write : All Writes big_uint_methods
unfolding BigUints.add_uint72_big_int BigUints.add_uint80_big_int BigUints.add_uint88_big_int
    BigUints.add_uint96_big_int BigUints.add_uint104ig_int BigUints.add_uint112_big_int
    BigUints.add_uint120_big_int BigUints.add_uint128_big_int BigUints.add_uint136_big_int
    BigUints.add_uint144_big_int BigUints.add_uint152_big_int BigUints.add_uint160_big_int
    BigUints.add_uint168_big_int BigUints.add_uint176_big_int BigUints.add_uint184_big_int
    BigUints.add_uint192_big_int BigUints.add_uint200_big_int BigUints.add_uint208_big_int
    BigUints.add_uint216_big_int BigUints.add_uint224_big_int BigUints.add_uint232_big_int
    BigUints.add_uint240_big_int BigUints.add_uint248_big_int BigUints.add_uint256_big_int
    SelUints.add_uint72 SelUints.add_uint80 SelUints.add_uint88 SelUints.add_uint96
    SelUints.add_uint104 SelUints.add_uint112 SelUints.add_uint120 SelUints.add_uint128
    SelUints.add_uint136 SelUints.add_uint144 SelUints.add_uint152 SelUints.add_uint160
    SelUints.add_uint168 SelUints.add_uint176 SelUints.add_uint184 SelUints.add_uint192
    SelUints.add_uint200 SelUints.add_uint208 SelUints.add_uint216 SelUints.add_uint224
    SelUints.add_uint232 SelUints.add_uint240 SelUints.add_uint248 SelUints.add_uint256
big_uint_methods_write =
    (λ z c h. written a_uint72 c (to_256_bit_bytes_lem z))
    & (λ z c h. written a_uint80 c (to_256_bit_bytes_lem z))
    & (λ z c h. written a_uint88 c (to_256_bit_bytes_lem z))
    & (λ z c h. written a_uint96 c (to_256_bit_bytes_lem z))
    & (λ z c h. written a_uint104 c (to_256_bit_bytes_lem z))
    & (λ z c h. written a_uint112 c (to_256_bit_bytes_lem z))
    & (λ z c h. written a_uint120 c (to_256_bit_bytes_lem z))
    & (λ z c h. written a_uint128 c (to_256_bit_bytes_lem z))
    & (λ z c h. written a_uint136 c (to_256_bit_bytes_lem z))
    & (λ z c h. written a_uint144 c (to_256_bit_bytes_lem z))
    & (λ z c h. written a_uint152 c (to_256_bit_bytes_lem z))
    & (λ z c h. written a_uint160 c (to_256_bit_bytes_lem z))
    & (λ z c h. written a_uint168 c (to_256_bit_bytes_lem z))
    & (λ z c h. written a_uint176 c (to_256_bit_bytes_lem z))
    & (λ z c h. written a_uint184 c (to_256_bit_bytes_lem z))
    & (λ z c h. written a_uint192 c (to_256_bit_bytes_lem z))
    & (λ z c h. written a_uint200 c (to_256_bit_bytes_lem z))
    & (λ z c h. written a_uint208 c (to_256_bit_bytes_lem z))
    & (λ z c h. written a_uint216 c (to_256_bit_bytes_lem z))
    & (λ z c h. written a_uint224 c (to_256_bit_bytes_lem z))
    & (λ z c h. written a_uint232 c (to_256_bit_bytes_lem z))
    & (λ z c h. written a_uint240 c (to_256_bit_bytes_lem z))
    & (λ z c h. written a_uint248 c (to_256_bit_bytes_lem z))
    & (λ z c h. written a_uint256 c (to_256_bit_bytes_lem z))
    & tt

big_uint_methods-Named : All Named big_uint_methods
unfolding argument_text format_uint format
big_uint_methods-Named =
    refl & refl & refl & refl & refl & refl & refl & refl & refl & refl & refl & refl & refl & refl
    & refl & refl & refl & refl & refl & refl & refl & refl & refl & refl & tt

-- The bits of the Go type.
abbrev pub go_width : NumberKind → ℕ
go_width (signed_go w) = w
go_width (unsigned_go w) = w
go_width big = 256

abbrev WritesZero : NumberMethod → Type 0
WritesZero m =
    (c : ContractFunctionParameters)
    → m.add (pos 0) c
      ≡ append_argument (add_param m.ty false) (word (2 ^ 256 - 2 ^ go_width m.kind)) false c

signed_methods_zero : All WritesZero signed_methods
unfolding Native.add_int8 Native.add_int16 Native.add_int24 Native.add_int32 Native.add_int40
    Native.add_int48 Native.add_int56 Native.add_int64 SelInts.add_int8 SelInts.add_int16
    SelInts.add_int24 SelInts.add_int32 SelInts.add_int40 SelInts.add_int48 SelInts.add_int56
    SelInts.add_int64 put_last new_int_argument word
signed_methods_zero =
    (λ c. refl)
    & (λ c. refl)
    & (λ c. refl)
    & (λ c. refl)
    & (λ c. refl)
    & (λ c. refl)
    & (λ c. refl)
    & (λ c. refl)
    & tt

All-get_elem? {ℓ κ} :
    {A : Type ℓ} (P : A → Type κ) (xs : List A) (i : ℕ) (a : A)
    → All P xs
    → get_elem? xs i ≡ some a
    → P a
All-get_elem? P [] i a h e = absurd (cc)
All-get_elem? P (x ∷ xs) zero a h e = let same : x ≡ a = cc in rw (← same) h.0
All-get_elem? P (x ∷ xs) (suc i) a h e = All-get_elem? P xs i a h.1 e

All-append {ℓ κ} :
    {A : Type ℓ} (P : A → Type κ) (xs ys : List A) → All P xs → All P ys → All P (xs ++ ys)
All-append P [] ys h k = k
All-append P (x ∷ xs) ys h k = (h.0, All-append P xs ys h.1 k)

-- All methods that add a number.
abbrev pub number_methods : List NumberMethod
number_methods = signed_methods ++ (unsigned_methods ++ (big_int_methods ++ big_uint_methods))

-- What holds of the methods of each table holds of all.
All-methods {κ} :
    (P : NumberMethod → Type κ)
    → All P signed_methods
    → All P unsigned_methods
    → All P big_int_methods
    → All P big_uint_methods
    → All P number_methods
All-methods P a b c d =
    All-append P signed_methods (unsigned_methods ++ (big_int_methods ++ big_uint_methods)) a (
      All-append P unsigned_methods (big_int_methods ++ big_uint_methods) b
        (All-append P big_int_methods big_uint_methods c d))

-- Each of the 64 methods that add a number, whichever Go type it takes: for a number of that type,
-- except zero where the type is signed, it appends the number's 32-byte word, in two's complement, as
-- an argument that is not dynamic, and adds to the selector the text of the
-- codec's type for the method. A `*big.Int` may be any integer, and is taken modulo 2 ^ 256.
pub number_method_lem :
    (i : ℕ) (m : NumberMethod) (z : ℤ) (c : ContractFunctionParameters)
    → get_elem? number_methods i ≡ some m
    → Accepts m.kind z
    → (m.add z c ≡ append_argument (add_param m.ty false) (word (u256 z)) false c)
      × (argument_text m.ty ≡ format false m.abi)
number_method_lem i m z c at h = (
  All-get_elem? Writes number_methods i m
      (All-methods Writes signed_methods_write unsigned_methods_write big_int_methods_write
        big_uint_methods_write)
      at z c h,
  All-get_elem? Named number_methods i m
      (All-methods Named signed_methods-Named unsigned_methods-Named big_int_methods-Named
        big_uint_methods-Named)
      at,
)

-- Each method that takes a signed Go integer writes zero as the word of -2 ^ w, where w is the width
-- of the Go type: the bytes above the integer are all 0xFF.
pub signed_method-zero :
    (i : ℕ) (m : NumberMethod) (c : ContractFunctionParameters)
    → get_elem? signed_methods i ≡ some m
    → m.add (pos 0) c
      ≡ append_argument (add_param m.ty false) (word (2 ^ 256 - 2 ^ go_width m.kind)) false c
signed_method-zero i m c at = All-get_elem? WritesZero signed_methods i m signed_methods_zero at c
