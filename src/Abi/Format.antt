-- ===== src/Abi/Format.antt =====
-- sdk/abi_type.go: the text of a type.
use hiero_sdk_go.Base.{Bool, true, false, [], ◌∷◌, ◌++◌}
use hiero_sdk_go.Base.Text.{Text, codes, format_uint}
use hiero_sdk_go.Abi.{
  AbiType, TupleElems, bool_type, string_type, address_type, bytes_type, function_type, uint_type,
  int_type, fixed_bytes_type, array_type, slice_type, tuple_type, no_elems, tuple_elem,
}

abbrev indexed_mark : Bool → Text
indexed_mark true = codes " indexed"
indexed_mark false = []

abbrev argument_name : Bool → Text → Text
argument_name false name = []
argument_name true [] = []
argument_name true (c ∷ s) = codes " " ++ (c ∷ s)

abbrev comma_between : TupleElems → Text
comma_between no_elems = []
comma_between (tuple_elem n e x es) = codes ","

-- `Format`, and its loop over the elements of a tuple, which `strings.Join` puts commas between.
unfoldable mutual
  pub format : Bool → AbiType → Text
  format args (tuple_type es) = codes "tuple(" ++ (format_elems args es ++ codes ")")
  format args (array_type n e) = format args e ++ (codes "[" ++ (format_uint n ++ codes "]"))
  format args (slice_type e) = format args e ++ codes "[]"
  format args bytes_type = codes "bytes"
  format args (fixed_bytes_type s) = codes "bytes" ++ format_uint s
  format args string_type = codes "string"
  format args bool_type = codes "bool"
  format args address_type = codes "address"
  format args function_type = codes "function"
  format args (uint_type s) = codes "uint" ++ format_uint s
  format args (int_type s) = codes "int" ++ format_uint s

  pub format_elems : Bool → TupleElems → Text
  format_elems args no_elems = []
  format_elems args (tuple_elem n e x es) =
      format args e
      ++ (indexed_mark x ++ (argument_name args n ++ (comma_between es ++ format_elems args es)))
