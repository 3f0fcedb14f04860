-- ===== src/Contract/Tests.antt =====
-- Calls of the builder, and its theorems at them.
use hiero_sdk_go.Base.{
  ℕ, ◌-◌, ◌^◌, ◌<◌, ◌≡◌, ◌≢◌, refl, false, true, List, [], ◌∷◌, ◌++◌, none, some, arith, length,
  take,
}
use hiero_sdk_go.Base.Int.{pos, negsuc}
use hiero_sdk_go.Base.Text.{Text, codes, format_uint, text_eq}
use hiero_sdk_go.Abi.{
  TupleElems, string_type, int_type, uint_type, tuple_type, no_elems, tuple_elem, Fields, int,
  string, go_map, no_fields, field, ok, panicked, is_native, map_index,
}
use hiero_sdk_go.Abi.Format.{format}
use hiero_sdk_go.Abi.Words.{word, zeros, u256}
use hiero_sdk_go.Abi.Encode.{elem_key}
use hiero_sdk_go.Abi.Decode.{decode_value}
use hiero_sdk_go.Abi.Spec.{assemble, heads, tails, heads_size, encoding, slice_fits}
use hiero_sdk_go.Contract.{
  ContractFunctionParameters, new_params, append_argument, add_param, build, put_last,
}
use hiero_sdk_go.Contract.Names.{a_int8, a_int24, argument_text}
use hiero_sdk_go.Contract.Numbers.{signed_go, number_method}
use hiero_sdk_go.Contract.Writes.{number_method_lem, signed_method-zero}
use hiero_sdk_go.Contract.Layout.{AreWords, argument_parts, build-assemble}
use hiero_sdk_go.Contract.ReadBack.{
  Calls, no_calls, then_call, call_number, call_string, of_int, decode_value-build,
}
use hiero_sdk_go.Contract.ArrayWrites.{
  add_int32_array-panicked, add_uint64_array-encoding, uint64_values, uint64_fit,
}
use hiero_sdk_go.Contract.Params.Native.{add_int8, add_int24}
use hiero_sdk_go.Contract.Params.Bytes.{add_string, length_and_bytes}
use hiero_sdk_go.Contract.Params.Arrays.{add_int32_array, add_uint64_array}
use hiero_sdk_go.Contract.Selector.Others

not_zero : negsuc 4 ≢ pos 0
not_zero e = cc

-- A hash of 32 bytes.
abbrev some_hash : Text → List ℕ
some_hash s = 1 ∷ 2 ∷ 3 ∷ 4 ∷ zeros 28

abbrev two_calls : ContractFunctionParameters
two_calls = add_string (codes "hi") (add_int8 (negsuc 4) new_params)

two_calls_words : AreWords two_calls.arguments
unfolding add_string add_int8 append_argument new_params put_last
two_calls_words = (λ e. refl, (λ e. cc, tt))

two_calls_short : length (assemble (argument_parts two_calls.arguments)) < 2 ^ 63
unfolding add_string add_int8 append_argument new_params argument_parts assemble heads tails
    heads_size word put_last length_and_bytes
two_calls_short = omega arith

build-assemble_example :
    (build some_hash none two_calls ≡ ok (assemble (argument_parts two_calls.arguments)))
    × (build some_hash (some (codes "f")) two_calls
        ≡ ok (
            take 4
              (some_hash (codes "f" ++ (codes "(" ++ (two_calls.function.params ++ codes ")"))))
            ++ assemble (argument_parts two_calls.arguments)))
build-assemble_example =
    build-assemble some_hash two_calls (codes "f") (λ s. refl) two_calls_words two_calls_short

number_method_lem_example :
    (add_int24 (negsuc 4) new_params
      ≡ append_argument (add_param a_int24 false) (word (u256 (negsuc 4))) false new_params)
    × (argument_text a_int24 ≡ format false (int_type 24))
number_method_lem_example =
    number_method_lem 2 (number_method a_int24 (int_type 24) (signed_go 32) add_int24) (negsuc 4)
      new_params refl (not_zero, omega arith)

signed_method-zero_example :
    add_int8 (pos 0) new_params
    ≡ append_argument (add_param a_int8 false) (word (2 ^ 256 - 2 ^ 8)) false new_params
signed_method-zero_example =
    signed_method-zero 0 (number_method a_int8 (int_type 8) (signed_go 8) add_int8) new_params refl

add_int32_array-panicked_example : add_int32_array (pos 1 ∷ []) new_params ≡ panicked
add_int32_array-panicked_example = add_int32_array-panicked (pos 1) [] new_params

add_uint64_array-encoding_example :
    add_uint64_array (5 ∷ 6 ∷ []) new_params
    ≡ ok (
        append_argument Others.add_uint64_array
          (encoding (
            slice_fits
              (uint_type 64)
              (uint64_values (5 ∷ 6 ∷ []))
              (uint64_fit (5 ∷ 6 ∷ []) (omega arith))))
          true
          new_params)
add_uint64_array-encoding_example =
    add_uint64_array-encoding (5 ∷ 6 ∷ []) new_params (omega arith) (omega arith)

abbrev call_elems : TupleElems
call_elems = tuple_elem [] (int_type 8) false (tuple_elem [] string_type false no_elems)

abbrev call_fields : Fields
call_fields =
    field (codes "0") (int 8 (negsuc 4)) (field (codes "1") (string (codes "hi")) no_fields)

abbrev sample_calls : Calls new_params call_elems 0 no_fields call_fields two_calls
unfolding elem_key format_uint map_index text_eq is_native
sample_calls =
    then_call [] (int_type 8) false (tuple_elem [] string_type false no_elems) 0 no_fields
      (int 8 (negsuc 4)) (field (codes "1") (string (codes "hi")) no_fields) (add_int8 (negsuc 4))
      new_params two_calls
      (call_number 0 (number_method a_int8 (int_type 8) (signed_go 8) add_int8) (negsuc 4)
        (int 8 (negsuc 4)) refl (not_zero, omega arith) (of_int 8 (negsuc 4) refl (omega arith)))
      refl
      (then_call [] string_type false no_elems 1 (field (codes "0") (int 8 (negsuc 4)) no_fields)
        (string (codes "hi")) no_fields (add_string (codes "hi")) (add_int8 (negsuc 4) new_params)
        two_calls (call_string (codes "hi") (omega arith)) refl (no_calls two_calls 2 _))

decode_value-build_example :
    (bytes : List ℕ) × (build some_hash none two_calls ≡ ok bytes)
    × (decode_value (tuple_type call_elems) bytes ≡ ok (go_map call_fields))
decode_value-build_example =
    decode_value-build some_hash [] (int_type 8) false (tuple_elem [] string_type false no_elems)
      call_fields two_calls (λ s. refl) sample_calls two_calls_short
