-- ===== src/Contract/ReadBack.antt =====
-- sdk/contract_function_parameters.go, sdk/abi_decode.go: the decoder of the codec on what the builder
-- wrote.
use hiero_sdk_go.Base.{
  ℕ, suc, ◌-◌, ◌%◌, ◌^◌, ◌≤◌, ◌<◌, ◌≡◌, refl, sym, ap, ◌∙◌, Bool, true, false, none, some, List, [],
  ◌∷◌, ◌++◌, arith, length, if◌then◌else◌, get_elem?, length-append, append_assoc, append-nil,
}
use hiero_sdk_go.Base.Int.{ℤ, pos}
use hiero_sdk_go.Base.Text.{Text}
use hiero_sdk_go.Abi.{
  AbiType, TupleElems, bool_type, string_type, bytes_type, uint_type, int_type, fixed_bytes_type,
  tuple_type, no_elems, tuple_elem, Value, Fields, bool, uint, int, big_int, string, slice, array,
  go_map, no_fields, field, ok, map_index, is_dynamic_type, is_native,
}
use hiero_sdk_go.Abi.Words.{word, zeros, length-word, u256, u256-pos}
use hiero_sdk_go.Abi.Encode.{elem_key}
use hiero_sdk_go.Abi.Decode.{bytes_values, snoc, decode, decode_value}
use hiero_sdk_go.Abi.Spec.{
  Fits, InRange, bool_fits, uint_fits, big_uint_fits, int_fits, big_int_fits, fixed_bytes_fits,
  encoding, Parts, part, assemble, heads_size, tails,
}
use hiero_sdk_go.Abi.Sizes.{length-assemble, head_long}
use hiero_sdk_go.Abi.Tuples.{Reads, ElemsRead, no_more, one_elem, decode-tuple}
use hiero_sdk_go.Abi.Cases.{bytes_case}
use hiero_sdk_go.Abi.RoundTrip.{decode-encoding, decode_value_lem}
use hiero_sdk_go.Abi.Encoding.{native_bound}
use hiero_sdk_go.Contract.{
  Argument, ContractFunctionParameters, new_params, append_argument, build, put_last,
}
use hiero_sdk_go.Contract.Layout.{AreWords, argument_parts, build-assemble, word_uint64}
use hiero_sdk_go.Contract.Numbers.{NumberMethod}
use hiero_sdk_go.Contract.Writes.{Accepts, number_methods, number_method_lem}
use hiero_sdk_go.Contract.Params.Native.{add_bool}
use hiero_sdk_go.Contract.Params.Bytes.{add_string, add_bytes, add_bytes32, length_and_bytes}

-- The Go value that stands for an integer of a type.
pub data NumberOf : AbiType → ℤ → Value → Type 0 where
  of_int : (s : ℕ) (z : ℤ) → is_native s ≡ true → InRange s z → NumberOf (int_type s) z (int s z)
  of_big_int :
      (s : ℕ) (z : ℤ) → is_native s ≡ false → InRange 256 z → NumberOf (int_type s) z (big_int z)
  of_uint : (s n : ℕ) → is_native s ≡ true → n < 2 ^ s → NumberOf (uint_type s) (pos n) (uint s n)
  of_big_uint :
      (s n : ℕ)
      → is_native s ≡ false
      → n < 2 ^ 256
      → NumberOf (uint_type s) (pos n) (big_int (pos n))

-- A call of a method, the type that it adds and the value that it is given.
pub data Call
    : AbiType → Value → (ContractFunctionParameters → ContractFunctionParameters) → Type 0 where
  call_number :
      (i : ℕ) (m : NumberMethod) (z : ℤ) (v : Value)
      → get_elem? number_methods i ≡ some m
      → Accepts m.kind z
      → NumberOf m.abi z v
      → Call m.abi v (m.add z)
  call_bool : (b : Bool) → Call bool_type (bool b) (add_bool b)
  call_string : (s : Text) → length s < 2 ^ 63 → Call string_type (string s) (add_string s)
  call_bytes :
      (b : List ℕ) → length b < 2 ^ 63 → Call bytes_type (slice (bytes_values b)) (add_bytes b)
  call_bytes32 :
      (b : List ℕ)
      → length b ≡ 32
      → Call (fixed_bytes_type 32) (array (bytes_values b)) (add_bytes32 b)

-- Calls one after the other, from the `i`-th element on: the elements of the tuple that a contract
-- reads, and their values under the keys that the decoder gives them.
pub data Calls
    : ContractFunctionParameters
      → TupleElems
      → ℕ
      → Fields
      → Fields
      → ContractFunctionParameters
      → Type 0 where
  no_calls :
      (c : ContractFunctionParameters) (i : ℕ) (seen : Fields) → Calls c no_elems i seen no_fields c
  then_call :
      (name : Text) (e : AbiType) (x : Bool) (es : TupleElems) (i : ℕ) (seen : Fields) (v : Value)
      (fs : Fields) (f : ContractFunctionParameters → ContractFunctionParameters)
      (c c' : ContractFunctionParameters)
      → Call e v f
      → map_index (elem_key name i) seen ≡ none
      → Calls (f c) es (suc i) (snoc seen (elem_key name i) v) fs c'
      → Calls c (tuple_elem name e x es) i seen (field (elem_key name i) v fs) c'

-- The argument that holds a value of a type.
abbrev Holds : AbiType → Value → List ℕ → Type 0
Holds e v b = (32 ≤ length b) × (is_dynamic_type e ≡ false → length b ≡ 32) × Reads e v b

-- A word that encodes a value of a type.
word-Holds :
    {e : AbiType} {v : Value} (h : Fits e v) (n : ℕ) → encoding h ≡ word n → Holds e v (word n)
word-Holds {e} {v} h n same = (
  omega (arith, length-word n),
  λ _. length-word n,
  rw (← same) (decode-encoding h (omega (arith, ap length same, length-word n))),
)

number-Holds : {t : AbiType} {z : ℤ} {v : Value} → NumberOf t z v → Holds t v (word (u256 z))
unfolding encoding
number-Holds (of_int s z w h) = word-Holds (int_fits s z w h) (u256 z) refl
number-Holds (of_big_int s z w h) = word-Holds (big_int_fits s z w h) (u256 z) refl
number-Holds (of_uint s n w h) =
    word-Holds (uint_fits s n w h) (u256 (pos n))
      (ap word (sym (u256-pos n (let k : n < 2 ^ 64 = native_bound s n w h in omega arith))))
number-Holds (of_big_uint s n w h) =
    word-Holds (big_uint_fits s n w h) (u256 (pos n)) (ap word (sym (u256-pos n h)))

-- The length and the bytes, for a type that the decoder reads so.
length_and_bytes-word :
    (b : List ℕ)
    → length b < 2 ^ 63
    → length_and_bytes b ≡ word (length b) ++ (b ++ zeros (32 - length b % 32))
unfolding length_and_bytes put_last
length_and_bytes-word b h =
    ap (λ l. l ++ (b ++ zeros (32 - length b % 32))) (word_uint64 (length b) (omega arith))

bytes_long : (n : ℕ) (l : List ℕ) → 32 ≤ length (word n ++ l)
bytes_long n l = omega (arith, length-append (word n) l, length-word n)

string-Holds : (s : Text) → length s < 2 ^ 63 → Holds string_type (string s) (length_and_bytes s)
unfolding decode is_dynamic_type
string-Holds s h = rw (length_and_bytes-word s h) (
  bytes_long (length s) _,
  λ no_static. absurd (cc),
  λ rest. (_, bytes_case s (zeros (32 - length s % 32)) rest string h, λ no_static. cc),
)

bytes-Holds :
    (b : List ℕ)
    → length b < 2 ^ 63
    → Holds bytes_type (slice (bytes_values b)) (length_and_bytes b)
unfolding decode is_dynamic_type
bytes-Holds b h = rw (length_and_bytes-word b h) (
  bytes_long (length b) _,
  λ no_static. absurd (cc),
  λ rest. (
    _,
    bytes_case b (zeros (32 - length b % 32)) rest (λ c. slice (bytes_values c)) h,
    λ no_static. cc,
  ),
)

number_static : {t : AbiType} {z : ℤ} {v : Value} → NumberOf t z v → is_dynamic_type t ≡ false
unfolding is_dynamic_type
number_static (of_int s z w h) = refl
number_static (of_big_int s z w h) = refl
number_static (of_uint s n w h) = refl
number_static (of_big_uint s n w h) = refl

bool_argument :
    (b : Bool) (c : ContractFunctionParameters)
    → (add_bool b c).arguments
      ≡ c.arguments ++ (record { value = word (if b then 1 else 0); dynamic = false } ∷ [])
unfolding add_bool append_argument put_last word
bool_argument true c = refl
bool_argument false c = refl

bool_encoding : (b : Bool) → encoding (bool_fits b) ≡ word (if b then 1 else 0)
unfolding encoding
bool_encoding b = refl

bytes32-Holds :
    (b : List ℕ) → length b ≡ 32 → Holds (fixed_bytes_type 32) (array (bytes_values b)) b
unfolding encoding
bytes32-Holds b h = (
  omega arith,
  λ _. h,
  rw (append-nil b) at
      (decode-encoding (fixed_bytes_fits 32 b h (omega arith)) (omega (arith, length-append b []))),
)

-- A part at least is a word.
ElemsRead-long :
    {name : Text} {e : AbiType} {x : Bool} {es : TupleElems} {i : ℕ} {seen fs : Fields} {ps : Parts}
    → ElemsRead (tuple_elem name e x es) i seen fs ps
    → 32 ≤ length (assemble ps)
unfolding heads_size
ElemsRead-long (one_elem name e x es i seen v fs b ps new long reads h) =
    omega
      (arith, length-assemble (part (is_dynamic_type e) b ps), head_long (is_dynamic_type e) b long)

-- What a call appends.
Call-argument :
    {e : AbiType} {v : Value} {f : ContractFunctionParameters → ContractFunctionParameters}
    → Call e v f
    → (b : List ℕ) × ((c : ContractFunctionParameters)
        → (f c).arguments ≡ c.arguments ++ (record { value = b; dynamic = is_dynamic_type e } ∷ []))
      × Holds e v b
unfolding append_argument is_dynamic_type add_bool add_string add_bytes add_bytes32
Call-argument (call_number i m z v at takes n) = (
  word (u256 z),
  λ c. rw (number_static n) (ap (λ d. d.arguments) (number_method_lem i m z c at takes).0),
  number-Holds n,
)
Call-argument (call_bool b) = (
  word (if b then 1 else 0),
  λ c. bool_argument b c,
  word-Holds (bool_fits b) (if b then 1 else 0) (bool_encoding b),
)
Call-argument (call_string s h) = (length_and_bytes s, λ c. refl, string-Holds s h)
Call-argument (call_bytes b h) = (length_and_bytes b, λ c. refl, bytes-Holds b h)
Call-argument (call_bytes32 b h) = (b, λ c. refl, bytes32-Holds b h)

-- The arguments of a sequence of calls, and how the decoder reads them.
Calls-arguments :
    {c c' : ContractFunctionParameters} {es : TupleElems} {i : ℕ} {seen fs : Fields}
    → Calls c es i seen fs c'
    → (args : List Argument) × (c'.arguments ≡ c.arguments ++ args)
      × AreWords args
      × ElemsRead es i seen fs (argument_parts args)
unfolding argument_parts
Calls-arguments (no_calls c i seen) = ([], sym (append-nil c.arguments), tt, no_more i seen)
Calls-arguments (then_call name e x es i seen v fs f c c' call new more) =
    let (b, appended, holds) = Call-argument call in
    let (long, static, reads) = holds in
    let a : Argument = record { value = b; dynamic = is_dynamic_type e } in
    let (args, rest, words, elems) = Calls-arguments more in
    (
      a ∷ args,
      rest ∙ ap (λ l. l ++ args) (appended c) ∙ append_assoc c.arguments (a ∷ []) args,
      (static, words),
      one_elem name e x es i seen v fs b (argument_parts args) new long reads elems,
    )

subst_length :
    (a b : List Argument)
    → a ≡ b
    → length (assemble (argument_parts a)) < 2 ^ 63
    → length (assemble (argument_parts b)) < 2 ^ 63
subst_length a b e h = rw (← e) h

words_of : (a b : List Argument) → a ≡ b → AreWords b → AreWords a
words_of a b e h = rw e h

-- Any sequence of calls that add a number, a truth value, a string, bytes or 32 bytes to a new
-- builder, each with a value that the method takes (for one that takes a signed Go integer, not zero),
-- under names of the tuple that differ, with an encoding below 2^63 bytes: `_Build` without a name
-- succeeds, and `Decode` with the tuple of the types returns the values, in the form
-- that the codec has for them.
pub decode_value-build :
    (keccak : Text → List ℕ) (name : Text) (e : AbiType) (x : Bool) (es : TupleElems) (fs : Fields)
    (c : ContractFunctionParameters)
    → ((s : Text) → length (keccak s) ≡ 32)
    → Calls new_params (tuple_elem name e x es) 0 no_fields fs c
    → length (assemble (argument_parts c.arguments)) < 2 ^ 63
    → (bytes : List ℕ) × (build keccak none c ≡ ok bytes)
      × (decode_value (tuple_type (tuple_elem name e x es)) bytes ≡ ok (go_map fs))
unfolding new_params
decode_value-build keccak name e x es fs c hash calls small =
    let (args, appended, words, elems) = Calls-arguments calls in
    let all : c.arguments ≡ args = appended in
    let bound : length (assemble (argument_parts args)) < 2 ^ 63 =
      subst_length c.arguments args all small in
    let written : build keccak none c ≡ ok (assemble (argument_parts c.arguments)) =
      (build-assemble keccak c name hash (words_of c.arguments args all words) small).0 in
    let long : 32 ≤ length (assemble (argument_parts args)) = ElemsRead-long elems in
    (
      assemble (argument_parts args),
      written ∙ ap (λ l. ok (assemble (argument_parts l))) all,
      decode_value_lem (tuple_type (tuple_elem name e x es)) (assemble (argument_parts args))
          (go_map fs) (tails (argument_parts args)) long
          (ap (decode (tuple_type (tuple_elem name e x es))) (sym (append-nil _))
            ∙ decode-tuple (tuple_elem name e x es) fs (argument_parts args) [] elems long bound
            ∙ ap (λ l. ok (go_map fs, l)) (append-nil _)),
    )
