-- ===== src/Abi/Encoding.antt =====
-- sdk/abi_encode.go: the loops of the encoder, on values that fit their type, write the encoding that
-- the specification describes.
use hiero_sdk_go.Base.{
  ℕ, suc, ◌+◌, ◌-◌, ◌*◌, ◌/◌, ◌^◌, ◌≤◌, ◌<◌, ◌≡◌, refl, sym, ap, ◌∙◌, Bool, true, false, inl, inr,
  ◌⊎◌, none, some, Bool-cases, List, [], ◌∷◌, ◌++◌, arith, if◌then◌else◌, length, length-append,
  append_assoc, append-nil, ltb, ==_iff,
}
use hiero_sdk_go.Base.Text.{Text, text_eq, text_eq_refl}
use hiero_sdk_go.Abi.{
  AbiType, TupleElems, bool, tuple_elem, Value, Values, Fields, values_length, is_dynamic_type,
  get_type_size, elems_size, ok, array, go_map, is_native, no_fields, field, fields_length,
  elems_length, map_index,
}
use hiero_sdk_go.Abi.Words.{
  word, zeros, pack_num, pack_num_lem, pack_bytes_slice, pad_bytes, pad_bytes-right, pad_bytes-left,
  to_u256_lem,
}
use hiero_sdk_go.Abi.Decode.{bytes_values, snoc}
use hiero_sdk_go.Abi.Sizes.{
  heads_size-items, heads_size-elems, length-assemble, tails-items, items_long,
}
use hiero_sdk_go.Abi.Encode.{
  bytes_of, encode_bool, encode_fixed_bytes, encode_address, encode_bytes, tuple_arg, elem_key,
  encode_slice, encode_array, first_offset, encode_num, encode_string, encode, encode_items,
  encode_elems,
}
use hiero_sdk_go.Abi.Spec.{
  Fits, AllFit, TupleFits, bool_fits, uint_fits, big_uint_fits, int_fits, big_int_fits, string_fits,
  bytes_fits, address_fits, fixed_bytes_fits, function_fits, slice_fits, array_fits, tuple_fits,
  none_left, one_more, last_elem, next_elem, Parts, part, heads_size, tails, heads, assemble,
  filling, encoding, item_parts, elem_parts,
}

-- What both loops do with one part: its head goes to the first accumulator, and its tail, if it has
-- one, to the second.
written :
    (d : Bool) (b : List ℕ) (ps : Parts) (offset : ℕ) (ret tail : List ℕ)
    → offset < 2 ^ 63
    → (ret ++ (if d then pack_num offset else b))
        ++ heads (if d then offset + length b else offset) ps
        ++ ((if d then tail ++ b else tail) ++ tails ps)
      ≡ ret ++ heads offset (part d b ps) ++ (tail ++ tails (part d b ps))
unfolding heads tails
written true b ps offset ret tail h = rw (pack_num_lem offset (omega arith)) (simp append_assoc)
written false b ps offset ret tail h = simp append_assoc

-- The bounds that a sequence of parts passes on to the parts behind the first.
pub later_offset :
    (d : Bool) (b : List ℕ) (ps : Parts) (offset : ℕ)
    → offset + length (tails (part d b ps)) < 2 ^ 63
    → (if d then offset + length b else offset) + length (tails ps) < 2 ^ 63
unfolding tails
later_offset true b ps offset h = omega (arith, length-append b (tails ps))
later_offset false b ps offset h = h

pub later_heads :
    (d : Bool) (b : List ℕ) (ps : Parts)
    → heads_size (part d b ps) < 2 ^ 63
    → heads_size ps < 2 ^ 63
unfolding heads_size
later_heads d b ps h = omega arith

-- A part is shorter than the sequence.
pub part_short :
    (d : Bool) (b : List ℕ) (ps : Parts) (offset : ℕ)
    → heads_size (part d b ps) < 2 ^ 63
    → offset + length (tails (part d b ps)) < 2 ^ 63
    → length b < 2 ^ 63
unfolding tails heads_size
part_short true b ps offset k h = omega (arith, length-append b (tails ps))
part_short false b ps offset k h = omega arith

-- The heads of parts without tails hold no offset.
pub heads_no_tails :
    {e : AbiType} {vs : Values} (h : AllFit e vs) (i j : ℕ)
    → is_dynamic_type e ≡ false
    → heads i (item_parts h) ≡ heads j (item_parts h)
unfolding heads encoding
heads_no_tails (none_left e) i j s = refl
heads_no_tails (one_more e v vs h hs) i j s =
    rw s (ap (λ l. encoding h ++ l) (heads_no_tails hs i j s))

bytes_of-bytes_values : (b : List ℕ) → bytes_of (bytes_values b) ≡ ok b
unfolding bytes_of
bytes_of-bytes_values [] = refl
bytes_of-bytes_values (x ∷ b) = rw (bytes_of-bytes_values b)

-- `packBytesSlice` writes the length, the bytes and the zeros that fill the last word.
pack_bytes_slice_lem :
    (b : List ℕ)
    → length b < 2 ^ 63
    → pack_bytes_slice b ≡ word (length b) ++ (b ++ filling (length b))
unfolding pack_bytes_slice
pack_bytes_slice_lem b h =
    rw
      (
        pack_num_lem (length b) (omega arith),
        pad_bytes-right b ((length b + 31) / 32 * 32) (omega arith),
      )
      refl

pub native_cases : (s : ℕ) → is_native s ≡ true → (s ≡ 8) ⊎ (s ≡ 16) ⊎ (s ≡ 32) ⊎ (s ≡ 64)
unfolding is_native
native_cases s h = ground arith

-- A number of a Go type of its own has 64 bits at most.
pub native_bound : (s n : ℕ) → is_native s ≡ true → n < 2 ^ s → n < 2 ^ 64
native_bound s n w h = elim (native_cases s w) [
  | inl e ↦ let k : n < 2 ^ 8 = rw e at h in omega arith
  | inr (inl e) ↦ let k : n < 2 ^ 16 = rw e at h in omega arith
  | inr (inr (inl e)) ↦ let k : n < 2 ^ 32 = rw e at h in omega arith
  | inr (inr (inr e)) ↦ let k : n < 2 ^ 64 = rw e at h in omega arith
]

-- Bytes that are padded to a word.
encode_fixed_bytes-array :
    (s : ℕ) (b : List ℕ)
    → length b ≡ s
    → s ≤ 32
    → encode_fixed_bytes (array (bytes_values b)) ≡ ok (b ++ zeros (32 - s))
unfolding encode_fixed_bytes
encode_fixed_bytes-array s b h l =
    rw bytes_of-bytes_values
      (ap ok (pad_bytes-right b 32 (omega arith) ∙ ap (λ (k : ℕ). b ++ zeros (32 - k)) h))

encode_address-array :
    (b : List ℕ) → length b ≡ 20 → encode_address (array (bytes_values b)) ≡ ok (zeros 12 ++ b)
unfolding encode_address
encode_address-array b h =
    rw bytes_of-bytes_values
      (ap ok (pad_bytes-left b 32 (omega arith) ∙ ap (λ (k : ℕ). zeros (32 - k) ++ b) h))

unfoldable pub fields_append : Fields → Fields → Fields
fields_append no_fields fs = fs
fields_append (field n v gs) fs = field n v (fields_append gs fs)

pub fields_append-snoc :
    (seen : Fields) (n : Text) (v : Value) (fs : Fields)
    → fields_append (snoc seen n v) fs ≡ fields_append seen (field n v fs)
unfolding fields_append
fields_append-snoc no_fields n v fs = refl
fields_append-snoc (field m w gs) n v fs = ap (field m w) (fields_append-snoc gs n v fs)

-- The entry behind those of other names.
map_index-append :
    (seen : Fields) (n : Text) (v : Value) (fs : Fields)
    → map_index n seen ≡ none
    → map_index n (fields_append seen (field n v fs)) ≡ some v
unfolding map_index fields_append
map_index-append no_fields n v fs h = rw (text_eq_refl n)
map_index-append (field m w gs) n v fs h = elim (Bool-cases (text_eq n m)) [
  | inl e ↦ let no_entry : some w ≡ none = rw e at h in cc
  | inr e ↦ rw e (map_index-append gs n v fs (rw e at h))
]

-- A tuple's map has an entry for each element.
fields_length-elems :
    {es : TupleElems} {i : ℕ} {seen fs : Fields}
    → TupleFits es i seen fs
    → fields_length fs ≡ elems_length es
fields_length-elems (last_elem i seen) = refl
fields_length-elems (next_elem name e x es i seen v fs k h hs) = ap suc (fields_length-elems hs)

encode_bool-word : (b : Bool) → encode_bool (bool b) ≡ ok (word (if b then 1 else 0))
unfolding encode_bool word pad_bytes
encode_bool-word true = refl
encode_bool-word false = refl

-- Bytes behind a word of their length are shorter than the whole.
pub bytes_short :
    (n : ℕ) (b rest : List ℕ) → length (word n ++ (b ++ rest)) < 2 ^ 63 → length b < 2 ^ 63
bytes_short n b rest h = omega (arith, length-append (word n) (b ++ rest), length-append b rest)

mul_comm : (a b : ℕ) → a * b ≡ b * a
mul_comm a b = grind arith

-- Where the tails of a slice or an array begin, if it has any.
first_offset-heads :
    {e : AbiType} {vs : Values} (h : AllFit e vs)
    → heads (first_offset e (values_length vs)) (item_parts h)
      ≡ heads (heads_size (item_parts h)) (item_parts h)
first_offset-heads {e} {vs} h = elim (Bool-cases (is_dynamic_type e)) [
  | inl d ↦ rw (d, heads_size-items h, mul_comm (values_length vs) (get_type_size e)) refl
  | inr d ↦ heads_no_tails h _ _ d
]

first_offset-bound :
    {e : AbiType} {vs : Values} (h : AllFit e vs)
    → length (assemble (item_parts h)) < 2 ^ 63
    → first_offset e (values_length vs) + length (tails (item_parts h)) < 2 ^ 63
first_offset-bound {e} {vs} h k = elim (Bool-cases (is_dynamic_type e)) [
  | inl d ↦ rw d (
      omega (
        arith,
        length-assemble (item_parts h),
        heads_size-items h,
        mul_comm (values_length vs) (get_type_size e),
      ))
  | inr d ↦ rw d (omega (arith, ap length (tails-items h d)))
]

-- The two accumulators at the end of a loop, the second one empty before it.
assembled :
    (ret : List ℕ) (ps : Parts) (offset : ℕ)
    → heads offset ps ≡ heads (heads_size ps) ps
    → ret ++ heads offset ps ++ ([] ++ tails ps) ≡ ret ++ assemble ps
unfolding assemble
assembled ret ps offset h = rw h (append_assoc ret (heads (heads_size ps) ps) (tails ps))

mutual
  unfolding encode encoding encode_num pack_num encode_string encode_bytes encode_items heads tails
      tuple_arg encode_slice encode_array fields_append

  pub encode-encoding :
      {t : AbiType} {v : Value} (h : Fits t v)
      → length (encoding h) < 2 ^ 63
      → encode t v ≡ ok (encoding h)
  encode-encoding (bool_fits b) k = encode_bool-word b
  encode-encoding (uint_fits s n w h) k =
      let small : n < 2 ^ 64 = native_bound s n w h in ap ok (pack_num_lem n (omega arith))
  encode-encoding (big_uint_fits s n w h) k = ap ok (pack_num_lem n h)
  encode-encoding (int_fits s z w h) k = ap ok (to_u256_lem z)
  encode-encoding (big_int_fits s z w h) k = ap ok (to_u256_lem z)
  encode-encoding (string_fits s) k = ap ok (pack_bytes_slice_lem s (bytes_short (length s) s _ k))
  encode-encoding (bytes_fits b) k =
      rw bytes_of-bytes_values (ap ok (pack_bytes_slice_lem b (bytes_short (length b) b _ k)))
  encode-encoding (address_fits b h) k = encode_address-array b h
  encode-encoding (fixed_bytes_fits s b h l) k = encode_fixed_bytes-array s b h l
  encode-encoding (function_fits b h) k = encode_fixed_bytes-array 24 b h (omega arith)
  encode-encoding (slice_fits e vs h) k =
      let whole : length (assemble (item_parts h)) < 2 ^ 63 =
        omega (arith, length-append (word (values_length vs)) (assemble (item_parts h))) in
      let few : values_length vs < 2 ^ 63 =
        omega (arith, length-assemble (item_parts h), items_long h) in
      encode_items-parts h (first_offset e (values_length vs)) (pack_num (values_length vs)) []
        (omega (arith, length-assemble (item_parts h))) (first_offset-bound h whole)
      ∙ ap ok (
          assembled (pack_num (values_length vs)) (item_parts h) _ (first_offset-heads h)
          ∙ ap (λ l. l ++ assemble (item_parts h)) (pack_num_lem (values_length vs) (omega arith)))
  encode-encoding (array_fits n e vs l p h) k = rw ((==_iff n (values_length vs)).1 l) (
      encode_items-parts h (first_offset e (values_length vs)) [] []
        (omega (arith, length-assemble (item_parts h))) (first_offset-bound h k)
      ∙ ap ok (assembled [] (item_parts h) _ (first_offset-heads h)))
  encode-encoding (tuple_fits name e x es fs h) k =
      let size : elems_size (tuple_elem name e x es) ≡ heads_size (elem_parts h) =
        sym (heads_size-elems h) in
      let enough : ltb (fields_length fs) (suc (elems_length es)) ≡ false =
        ground (arith, fields_length-elems h) in
      rw enough (
        encode_elems-parts h fs (elems_size (tuple_elem name e x es)) [] [] refl
          (omega (arith, length-assemble (elem_parts h)))
          (omega (arith, length-assemble (elem_parts h)))
        ∙ ap ok (assembled [] (elem_parts h) _ (ap (λ (o : ℕ). heads o (elem_parts h)) size)))

  encode_items-parts :
      {e : AbiType} {vs : Values} (h : AllFit e vs) (offset : ℕ) (ret tail : List ℕ)
      → heads_size (item_parts h) < 2 ^ 63
      → offset + length (tails (item_parts h)) < 2 ^ 63
      → encode_items (encode e) (is_dynamic_type e) vs offset ret tail
        ≡ ok (ret ++ heads offset (item_parts h) ++ (tail ++ tails (item_parts h)))
  encode_items-parts (none_left e) offset ret tail k l = simp append-nil
  encode_items-parts (one_more e v vs h hs) offset ret tail k l =
      let d : Bool = is_dynamic_type e in
      let b : List ℕ = encoding h in
      rw (encode-encoding h (part_short d b (item_parts hs) offset k l)) (
        encode_items-parts hs (if d then offset + length b else offset)
          (ret ++ (if d then pack_num offset else b)) (if d then tail ++ b else tail)
          (later_heads d b (item_parts hs) k) (later_offset d b (item_parts hs) offset l)
        ∙ ap ok (written d b (item_parts hs) offset ret tail (omega arith)))

  encode_elems-parts :
      {es : TupleElems} {i : ℕ} {seen fs : Fields} (h : TupleFits es i seen fs) (all : Fields)
      (offset : ℕ) (ret tail : List ℕ)
      → all ≡ fields_append seen fs
      → heads_size (elem_parts h) < 2 ^ 63
      → offset + length (tails (elem_parts h)) < 2 ^ 63
      → encode_elems es (go_map all) i offset ret tail
        ≡ ok (ret ++ heads offset (elem_parts h) ++ (tail ++ tails (elem_parts h)))
  encode_elems-parts (last_elem i seen) all offset ret tail w k l = simp append-nil
  encode_elems-parts (next_elem name e x es i seen v fs new h hs) all offset ret tail w k l =
      let d : Bool = is_dynamic_type e in
      let b : List ℕ = encoding h in
      let found : map_index (elem_key name i) all ≡ some v =
        rw w (map_index-append seen (elem_key name i) v fs new) in
      rw (found, encode-encoding h (part_short d b (elem_parts hs) offset k l))
        (encode_elems-parts hs all (if d then offset + length b else offset)
            (ret ++ (if d then pack_num offset else b)) (if d then tail ++ b else tail)
            (w ∙ sym (fields_append-snoc seen (elem_key name i) v fs))
            (later_heads d b (elem_parts hs) k) (later_offset d b (elem_parts hs) offset l)
          ∙ ap ok (written d b (elem_parts hs) offset ret tail (omega arith)))
