-- ===== src/Abi/Tests.antt =====
-- Inputs of the codec, and its theorems at them.
use hiero_sdk_go.Base.{◌-◌, ◌^◌, ◌<◌, ◌≡◌, ◌≢◌, refl, false, true, [], ◌++◌, arith, length}
use hiero_sdk_go.Base.Int.{pos, negsuc}
use hiero_sdk_go.Base.Text.{codes, format_uint, text_eq}
use hiero_sdk_go.Abi.{
  TupleElems, string_type, int_type, fixed_bytes_type, array_type, slice_type, tuple_type, no_elems,
  tuple_elem, Values, Fields, int, string, array, go_map, no_values, value, no_fields, field, ok,
  panicked, is_dynamic_type, is_native, get_type_size, map_index,
}
use hiero_sdk_go.Abi.Format.{format}
use hiero_sdk_go.Abi.Words.{word, zeros, u256}
use hiero_sdk_go.Abi.Encode.{encode, elem_key}
use hiero_sdk_go.Abi.Decode.{decode_value}
use hiero_sdk_go.Abi.Spec.{
  Fits, int_fits, string_fits, array_fits, tuple_fits, none_left, one_more, last_elem, next_elem,
  encoding, assemble, heads, tails, heads_size,
}
use hiero_sdk_go.Abi.Sizes.{length-encoding}
use hiero_sdk_go.Abi.RoundTrip.{decode_value-encode}
use hiero_sdk_go.Abi.Typed.{HasType}
use hiero_sdk_go.Abi.Soundness.{decode_value-HasType}
use hiero_sdk_go.Abi.Safe.{
  slice_sized, tuple_sized, elem_sized, all_sized, fixed_bytes_sized, decode_value-ne_panicked,
}

-- tuple(string a,int16[2] b)
abbrev sample_elems : TupleElems
sample_elems =
    tuple_elem (codes "a") string_type false
      (tuple_elem (codes "b") (array_type 2 (int_type 16)) false no_elems)

abbrev two_ints : Values
two_ints = value (int 16 (negsuc 4)) (value (int 16 (pos 7)) no_values)

abbrev sample_fields : Fields
sample_fields =
    field (codes "a") (string (codes "hi")) (field (codes "b") (array two_ints) no_fields)

abbrev two_ints_fit : Fits (array_type 2 (int_type 16)) (array two_ints)
unfolding is_native
two_ints_fit = array_fits 2 (int_type 16) two_ints refl (omega arith) (
    one_more (int_type 16) (int 16 (negsuc 4)) (value (int 16 (pos 7)) no_values)
      (int_fits 16 (negsuc 4) refl (omega arith))
      (one_more (int_type 16) (int 16 (pos 7)) no_values (int_fits 16 (pos 7) refl (omega arith))
        (none_left (int_type 16))))

abbrev sample_fits : Fits (tuple_type sample_elems) (go_map sample_fields)
unfolding elem_key map_index text_eq
sample_fits =
    tuple_fits (codes "a") string_type false
      (tuple_elem (codes "b") (array_type 2 (int_type 16)) false no_elems) sample_fields
      (next_elem (codes "a") string_type false
        (tuple_elem (codes "b") (array_type 2 (int_type 16)) false no_elems) 0 no_fields
        (string (codes "hi")) (field (codes "b") (array two_ints) no_fields) refl
        (string_fits (codes "hi"))
        (next_elem (codes "b") (array_type 2 (int_type 16)) false no_elems 1
          (field (codes "a") (string (codes "hi")) no_fields) (array two_ints) no_fields refl
          two_ints_fit
          (last_elem 2 (
            field (codes "a") (string (codes "hi"))
              (field (codes "b") (array two_ints) no_fields)))))

-- The string's offset is three words, behind the two integers in place.
sample_bytes :
    encoding sample_fits
    ≡ word 96 ++ (word (2 ^ 256 - 5) ++ (word 7 ++ (word 2 ++ (codes "hi" ++ zeros 30))))
unfolding encoding assemble heads tails heads_size word is_dynamic_type sample_fits two_ints_fit
    u256
sample_bytes = refl

sample_short : length (encoding sample_fits) < 2 ^ 63
unfolding encoding assemble heads tails heads_size word is_dynamic_type sample_fits two_ints_fit
sample_short = omega arith

decode_value-encode_example :
    (encode (tuple_type sample_elems) (go_map sample_fields) ≡ ok (encoding sample_fits))
    × (decode_value (tuple_type sample_elems) (encoding sample_fits) ≡ ok (go_map sample_fields))
decode_value-encode_example = decode_value-encode sample_fits sample_short

length-encoding_example :
    length (encoding two_ints_fit) ≡ get_type_size (array_type 2 (int_type 16))
length-encoding_example = length-encoding two_ints_fit (unfold is_dynamic_type in refl)

decode_value-ne_panicked_example :
    decode_value
      (tuple_type (tuple_elem [] (slice_type (fixed_bytes_type 3)) false no_elems))
      (zeros 40)
    ≢ panicked
decode_value-ne_panicked_example =
    decode_value-ne_panicked
      (tuple_sized _ (
        elem_sized [] _ false no_elems (slice_sized _ (fixed_bytes_sized 3 (omega arith)))
          all_sized))
      (zeros 40)

format_example :
    format true (slice_type (tuple_type sample_elems)) ≡ codes "tuple(string a,int16[2] b)[]"
unfolding format format_uint
format_example = refl

decode_value-HasType_example : HasType (tuple_type sample_elems) (go_map sample_fields)
decode_value-HasType_example =
    decode_value-HasType (tuple_type sample_elems) (encoding sample_fits) (go_map sample_fields)
      ((decode_value-encode sample_fits sample_short).1)
