-- ===== src/Abi/RoundTrip.antt =====
-- sdk/abi_encode.go, sdk/abi_decode.go: the encoder and the decoder together.
use hiero_sdk_go.Base.{
  ℕ, ◌+◌, ◌-◌, ◌*◌, ◌^◌, ◌≤◌, ◌<◌, ◌≡◌, refl, sym, ap, ◌∙◌, Bool, List, [], ◌∷◌, ◌++◌, arith,
  if◌then◌else◌, length, drop, length-append, append-nil,
}
use hiero_sdk_go.Base.Int.{pos}
use hiero_sdk_go.Abi.{
  AbiType, TupleElems, tuple_elem, Value, Values, Fields, bool, uint, int, big_int, string, slice,
  array, ok, values_length, is_dynamic_type,
}
use hiero_sdk_go.Abi.Words.{word, zeros, length-word, length-zeros, u256}
use hiero_sdk_go.Abi.Encode.{encode}
use hiero_sdk_go.Abi.Decode.{
  bytes_values, decode, decode_items, decode_value, read_uint, read_int, read_addr,
  read_fixed_bytes, read_function_type, decode_bool,
}
use hiero_sdk_go.Abi.Spec.{
  Fits, AllFit, TupleFits, bool_fits, uint_fits, big_uint_fits, int_fits, big_int_fits, string_fits,
  bytes_fits, address_fits, fixed_bytes_fits, function_fits, slice_fits, array_fits, tuple_fits,
  none_left, one_more, last_elem, next_elem, Parts, part, heads_size, tails, heads, assemble,
  filling, encoding, item_parts, elem_parts,
}
use hiero_sdk_go.Abi.Sizes.{
  encoding_long, items_long, elems_long, length-assemble, tails-items, tails-elems,
}
use hiero_sdk_go.Abi.Encoding.{
  encode-encoding, fields_append, later_offset, later_heads, part_short, bytes_short,
}
use hiero_sdk_go.Abi.Tuples.{
  Reads, ElemsRead, no_more, one_elem, decode-tuple, later_tails, later_inside, later_tail,
  tails_position, tails_inside,
}
use hiero_sdk_go.Abi.Reads.{
  holds_word, decode_bool-word, read_uint-word, read_uint-big, read_int-word, read_int-big,
  read_addr-zeros, read_fixed_bytes-padded, read_function_type-padded, decode_entry-part,
}
use hiero_sdk_go.Abi.Cases.{word_case, bytes_case, padded_length, sequence_case, slice_case}

mutual
  unfolding decode encoding is_dynamic_type decode_items heads fields_append

  pub decode-encoding :
      {t : AbiType} {v : Value} (h : Fits t v)
      → length (encoding h) < 2 ^ 63
      → Reads t v (encoding h)
  decode-encoding (bool_fits b) k rest = (
    rest,
    word_case (word (if b then 1 else 0)) rest (bool b) decode_bool (length-word _)
        (decode_bool-word b),
    λ _. refl,
  )
  decode-encoding (uint_fits s n w h) k rest = (
    rest,
    word_case (word n) rest (uint s n) (λ b. ok (read_uint s b)) (length-word n)
        (ap ok (read_uint-word s n w h)),
    λ _. refl,
  )
  decode-encoding (big_uint_fits s n w h) k rest = (
    rest,
    word_case (word n) rest (big_int (pos n)) (λ b. ok (read_uint s b)) (length-word n)
        (ap ok (read_uint-big s n w h)),
    λ _. refl,
  )
  decode-encoding (int_fits s z w h) k rest = (
    rest,
    word_case (word (u256 z)) rest (int s z) (λ b. ok (read_int s b)) (length-word _)
        (ap ok (read_int-word s z w h)),
    λ _. refl,
  )
  decode-encoding (big_int_fits s z w h) k rest = (
    rest,
    word_case (word (u256 z)) rest (big_int z) (λ b. ok (read_int s b)) (length-word _)
        (ap ok (read_int-big s z w h)),
    λ _. refl,
  )
  decode-encoding (string_fits s) k rest = (
    s ++ (filling (length s) ++ rest),
    bytes_case s (filling (length s)) rest string (bytes_short (length s) s _ k),
    λ no_static. cc,
  )
  decode-encoding (bytes_fits b) k rest = (
    b ++ (filling (length b) ++ rest),
    bytes_case b (filling (length b)) rest (λ c. slice (bytes_values c))
        (bytes_short (length b) b _ k),
    λ no_static. cc,
  )
  decode-encoding (address_fits b h) k rest = (
    rest,
    word_case (zeros 12 ++ b) rest (array (bytes_values b)) read_addr
        (padded_length (zeros 12) b 12 20 refl h) (read_addr-zeros b h),
    λ _. refl,
  )
  decode-encoding (fixed_bytes_fits s b h l) k rest = (
    rest,
    word_case (b ++ zeros (32 - s)) rest (array (bytes_values b))
        (λ w. read_fixed_bytes s w (drop 32 ((b ++ zeros (32 - s)) ++ rest)))
        (padded_length b (zeros (32 - s)) s (32 - s) h (length-zeros (32 - s)) ∙ omega arith)
        (read_fixed_bytes-padded s b _ h),
    λ _. refl,
  )
  decode-encoding (function_fits b h) k rest = (
    rest,
    word_case (b ++ zeros 8) rest (array (bytes_values b)) read_function_type
        (padded_length b (zeros 8) 24 8 h refl) (read_function_type-padded b h),
    λ _. refl,
  )
  decode-encoding (slice_fits e vs h) k rest =
      let body : List ℕ = assemble (item_parts h) in
      let whole : length body < 2 ^ 63 =
        omega (arith, length-append (word (values_length vs)) (assemble (item_parts h))) in
      let few : 32 * values_length vs ≤ heads_size (item_parts h) = items_long h in
      let sizes : length body ≡ heads_size (item_parts h) + length (tails (item_parts h)) =
        length-assemble (item_parts h) in
      let items : decode_items (decode e) (is_dynamic_type e) (values_length vs) (body ++ rest)
            (heads (heads_size (item_parts h)) (item_parts h) ++ (tails (item_parts h) ++ rest))
          ≡ ok (vs, tails (item_parts h) ++ rest) =
        decode_items-parts h (heads_size (item_parts h)) (body ++ rest) rest
          (tails (item_parts h) ++ rest) (omega arith) (omega arith)
          (tails_inside (item_parts h) rest) (tails_position (item_parts h) rest) in
      (
        tails (item_parts h) ++ rest,
        slice_case (decode e) (is_dynamic_type e) vs (item_parts h) rest few (omega arith) items,
        λ no_static. cc,
      )
  decode-encoding (array_fits n e vs l p h) k rest =
      let sizes : length (assemble (item_parts h))
          ≡ heads_size (item_parts h) + length (tails (item_parts h)) =
        length-assemble (item_parts h) in
      let items : decode_items (decode e) (is_dynamic_type e) (values_length vs)
            (assemble (item_parts h) ++ rest)
            (heads (heads_size (item_parts h)) (item_parts h) ++ (tails (item_parts h) ++ rest))
          ≡ ok (vs, tails (item_parts h) ++ rest) =
        decode_items-parts h (heads_size (item_parts h)) (assemble (item_parts h) ++ rest) rest
          (tails (item_parts h) ++ rest) (omega arith) (omega arith)
          (tails_inside (item_parts h) rest) (tails_position (item_parts h) rest) in
      (
        tails (item_parts h) ++ rest,
        rw (l, holds_word (assemble (item_parts h)) rest (omega (arith, items_long h)))
            (sequence_case (decode e) (is_dynamic_type e) array (values_length vs) vs (item_parts h)
              rest (items_long h) items),
        λ static. ap (λ l. l ++ rest) (tails-items h static),
      )
  decode-encoding (tuple_fits name e x es fs h) k rest =
      let ps : Parts = elem_parts h in
      let sizes : length (assemble ps) ≡ heads_size ps + length (tails ps) = length-assemble ps in
      (
        tails ps ++ rest,
        decode-tuple (tuple_elem name e x es) fs ps rest (elems_read h (omega arith) (omega arith))
            (omega (arith, elems_long h)) k,
        λ static. ap (λ l. l ++ rest) (tails-elems h static),
      )

  decode_items-parts :
      {e : AbiType} {vs : Values} (h : AllFit e vs) (offset : ℕ) (orig more trailing : List ℕ)
      → heads_size (item_parts h) < 2 ^ 63
      → offset + length (tails (item_parts h)) < 2 ^ 63
      → offset + length (tails (item_parts h)) ≤ length orig
      → drop offset orig ≡ tails (item_parts h) ++ more
      → decode_items
          (decode e)
          (is_dynamic_type e)
          (values_length vs)
          orig
          (heads offset (item_parts h) ++ trailing)
        ≡ ok (vs, trailing)
  decode_items-parts (none_left e) offset orig more trailing k l i at = refl
  decode_items-parts (one_more e v vs h hs) offset orig more trailing k l i at =
      let d : Bool = is_dynamic_type e in
      let b : List ℕ = encoding h in
      let short : length b < 2 ^ 63 = part_short d b (item_parts hs) offset k l in
      rw
        (
          decode_entry-part (decode e) d b v (item_parts hs) offset orig more trailing
              (encoding_long h) (decode-encoding h short) at (omega arith) (omega arith),
          decode_items-parts hs (if d then offset + length b else offset) orig more trailing
              (later_heads d b (item_parts hs) k) (later_offset d b (item_parts hs) offset l)
              (later_inside d b (item_parts hs) offset (length orig) i)
              (later_tails d b (item_parts hs) offset orig more at),
        )
        refl

  elems_read :
      {es : TupleElems} {i : ℕ} {seen fs : Fields} (h : TupleFits es i seen fs)
      → heads_size (elem_parts h) < 2 ^ 63
      → length (tails (elem_parts h)) < 2 ^ 63
      → ElemsRead es i seen fs (elem_parts h)
  elems_read (last_elem i seen) k l = no_more i seen
  elems_read (next_elem name e x es i seen v fs new h hs) k l =
      let d : Bool = is_dynamic_type e in
      let b : List ℕ = encoding h in
      let bound : 0 + length (tails (part d b (elem_parts hs))) < 2 ^ 63 = omega arith in
      one_elem name e x es i seen v fs b (elem_parts hs) new (encoding_long h)
        (decode-encoding h (part_short d b (elem_parts hs) 0 k bound))
        (elems_read hs (later_heads d b (elem_parts hs) k) (later_tail d b (elem_parts hs) l))

pub decode_value_lem :
    (t : AbiType) (b : List ℕ) (v : Value) (tail : List ℕ)
    → 32 ≤ length b
    → decode t b ≡ ok (v, tail)
    → decode_value t b ≡ ok v
unfolding decode_value
decode_value_lem t [] v tail h e = absurd (omega arith)
decode_value_lem t (x ∷ b) v tail h e = rw e refl

-- A value that fits its type, with an encoding below 2 ^ 63 bytes, is encoded as the specification of
-- the contract ABI says, each offset and length included, and the decoder returns the value from the
-- bytes.
pub decode_value-encode :
    {t : AbiType} {v : Value} (h : Fits t v)
    → length (encoding h) < 2 ^ 63
    → (encode t v ≡ ok (encoding h)) × (decode_value t (encoding h) ≡ ok v)
decode_value-encode {t} {v} h k =
    let (tail, e, _) = decode-encoding h k [] in
    (
      encode-encoding h k,
      decode_value_lem t (encoding h) v tail (encoding_long h)
          (ap (decode t) (sym (append-nil (encoding h))) ∙ e),
    )
