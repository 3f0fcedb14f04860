-- ===== src/Abi/Safe.antt =====
-- sdk/abi_decode.go: the decoder on input of any bytes.
use hiero_sdk_go.Base.{
  ◌++◌, length-append, length-drop, ℕ, zero, suc, ◌*◌, ◌≤◌, ◌<◌, ◌≡◌, ◌≢◌, refl, Bool, true, false,
  List, [], ◌∷◌, arith, ltb, leb, if◌then◌else◌, length, take, drop, get_elem?-some,
}
use hiero_sdk_go.Base.Text.{Text}
use hiero_sdk_go.Abi.{
  AbiType, TupleElems, bool_type, string_type, address_type, bytes_type, function_type, uint_type,
  int_type, fixed_bytes_type, array_type, slice_type, tuple_type, no_elems, tuple_elem, Value,
  Values, Fields, slice, array, no_fields, Result, ok, failed, panicked, ◌>>=◌,
}
use hiero_sdk_go.Abi.Encode.{elem_key}
use hiero_sdk_go.Abi.Decode.{
  decode, decode_elems, decode_items, decode_array_slice, decode_entry, insert_new, decode_value,
  with_rest, read_addr, read_fixed_bytes, read_function_type, read_bytes, read_length, read_offset,
  decode_bool,
}

-- Types whose fixed bytes fill a word at most.
mutual
  pub data IsSized : AbiType → Type 0 where
    bool_sized : IsSized bool_type
    string_sized : IsSized string_type
    address_sized : IsSized address_type
    bytes_sized : IsSized bytes_type
    function_sized : IsSized function_type
    uint_sized : (s : ℕ) → IsSized (uint_type s)
    int_sized : (s : ℕ) → IsSized (int_type s)
    fixed_bytes_sized : (s : ℕ) → s ≤ 32 → IsSized (fixed_bytes_type s)
    array_sized : (n : ℕ) (e : AbiType) → IsSized e → IsSized (array_type n e)
    slice_sized : (e : AbiType) → IsSized e → IsSized (slice_type e)
    tuple_sized : (es : TupleElems) → AreSized es → IsSized (tuple_type es)

  pub data AreSized : TupleElems → Type 0 where
    all_sized : AreSized no_elems
    elem_sized :
        (name : Text) (e : AbiType) (x : Bool) (es : TupleElems)
        → IsSized e
        → AreSized es
        → AreSized (tuple_elem name e x es)

module _ {ℓ κ} {A : Type ℓ} {B : Type κ} where
  >>=-ne_panicked :
      (m : Result A) (f : A → Result B)
      → m ≢ panicked
      → ((a : A) → f a ≢ panicked)
      → (m >>= f) ≢ panicked
  >>=-ne_panicked (ok a) f h k = k a
  >>=-ne_panicked failed f h k = λ e. cc
  >>=-ne_panicked panicked f h k = λ e. h refl

ok-ne_panicked {ℓ} : {A : Type ℓ} (a : A) → ok a ≢ panicked
ok-ne_panicked a e = cc

if-ne_panicked {ℓ} :
    {A : Type ℓ} (b : Bool) (r : Result A)
    → (b ≡ false → r ≢ panicked)
    → (if b then failed else r) ≢ panicked
if-ne_panicked true r h = λ e. cc
if-ne_panicked false r h = h refl

pub length-take : (n : ℕ) (xs : List ℕ) → n ≤ length xs → length (take n xs) ≡ n
length-take zero xs h = refl
length-take (suc n) [] h = absurd (omega arith)
length-take (suc n) (x ∷ xs) h = omega (arith, length-take n xs (omega arith))

read_length-ne_panicked : (input : List ℕ) → read_length input ≢ panicked
unfolding read_length
read_length-ne_panicked input = λ e. ground arith

read_offset-ne_panicked : (input : List ℕ) (n : ℕ) → read_offset input n ≢ panicked
unfolding read_offset
read_offset-ne_panicked input n = λ e. ground arith

decode_bool-ne_panicked : (w : List ℕ) → length w ≡ 32 → decode_bool w ≢ panicked
unfolding decode_bool
decode_bool-ne_panicked w h =
    let (b, found) = get_elem?-some w 31 (omega arith) in
    rw (found, decode_bool) (λ e. ground arith)

read_addr-ne_panicked : (w : List ℕ) → read_addr w ≢ panicked
unfolding read_addr
read_addr-ne_panicked w = λ e. ground arith

read_function_type-ne_panicked : (w : List ℕ) → read_function_type w ≢ panicked
unfolding read_function_type
read_function_type-ne_panicked w = λ e. ground arith

read_fixed_bytes-ne_panicked :
    (s : ℕ) (w behind : List ℕ) → length w ≡ 32 → s ≤ 32 → read_fixed_bytes s w behind ≢ panicked
unfolding read_fixed_bytes
read_fixed_bytes-ne_panicked s w behind h k = λ e. ground arith

read_bytes-ne_panicked : (input : List ℕ) → read_bytes input ≢ panicked
unfolding read_bytes
read_bytes-ne_panicked input =
    >>=-ne_panicked (read_length input) _ (read_length-ne_panicked input) (λ n. ok-ne_panicked _)

insert_new-ne_panicked : (res : Fields) (name : Text) (v : Value) → insert_new res name v ≢ panicked
unfolding insert_new
insert_new-ne_panicked res name v = λ e. ground arith

-- The word that a decoder of one word reads.
first_word : (input : List ℕ) → ltb (length input) 32 ≡ false → length (take 32 input) ≡ 32
first_word input h = length-take 32 input (ground arith)

with_rest-ne_panicked :
    (input : List ℕ) (r : Result Value) → r ≢ panicked → with_rest input r ≢ panicked
with_rest-ne_panicked input r h = >>=-ne_panicked r _ h (λ v. ok-ne_panicked _)

decode_entry-ne_panicked :
    (dec : List ℕ → Result (Value × List ℕ)) (d : Bool) (orig input : List ℕ)
    → ((b : List ℕ) → dec b ≢ panicked)
    → decode_entry dec d orig input ≢ panicked
unfolding decode_entry
decode_entry-ne_panicked dec d orig input h = if-ne_panicked _ _ (λ long. entry d)
  where
    entry :
        (d : Bool)
        → (if d
            then (read_offset input (length orig) >>= λ o.
                dec (drop o orig) >>= λ r. ok (r.0, drop 32 input))
            else dec input)
          ≢ panicked
    entry true =
        >>=-ne_panicked _ _ (read_offset-ne_panicked input (length orig))
          (λ o. >>=-ne_panicked _ _ (h (drop o orig)) (λ r. ok-ne_panicked _))
    entry false = h input

decode_items-ne_panicked :
    (dec : List ℕ → Result (Value × List ℕ)) (d : Bool) (n : ℕ) (orig input : List ℕ)
    → ((b : List ℕ) → dec b ≢ panicked)
    → decode_items dec d n orig input ≢ panicked
unfolding decode_items
decode_items-ne_panicked dec d zero orig input h = λ e. cc
decode_items-ne_panicked dec d (suc n) orig input h =
    >>=-ne_panicked _ _ (decode_entry-ne_panicked dec d orig input h) (λ r.
      >>=-ne_panicked _ _ (decode_items-ne_panicked dec d n orig r.1 h) (λ q. ok-ne_panicked _))

decode_array_slice-ne_panicked :
    (dec : List ℕ → Result (Value × List ℕ)) (d : Bool) (make : Values → Value) (input : List ℕ)
    (n : ℕ)
    → ((b : List ℕ) → dec b ≢ panicked)
    → decode_array_slice dec d make input n ≢ panicked
unfolding decode_array_slice
decode_array_slice-ne_panicked dec d make input n h =
    if-ne_panicked (ltb (length input) (32 * n))
      (decode_items dec d n input input >>= λ (vals, rest). ok (make vals, rest))
      (λ long.
        >>=-ne_panicked _ _ (decode_items-ne_panicked dec d n input input h)
          (λ r. ok-ne_panicked _))

mutual
  unfolding decode

  decode-ne_panicked : {t : AbiType} → IsSized t → (input : List ℕ) → decode t input ≢ panicked
  decode-ne_panicked bool_sized input =
      if-ne_panicked (ltb (length input) 32) _
        (λ long. with_rest-ne_panicked input _ (decode_bool-ne_panicked _ (first_word input long)))
  decode-ne_panicked string_sized input = if-ne_panicked (ltb (length input) 32) _ (λ long.
      with_rest-ne_panicked input _
        (>>=-ne_panicked _ _ (read_bytes-ne_panicked input) (λ b. ok-ne_panicked _)))
  decode-ne_panicked address_sized input =
      if-ne_panicked (ltb (length input) 32) _
        (λ long. with_rest-ne_panicked input _ (read_addr-ne_panicked _))
  decode-ne_panicked bytes_sized input = if-ne_panicked (ltb (length input) 32) _ (λ long.
      with_rest-ne_panicked input _
        (>>=-ne_panicked _ _ (read_bytes-ne_panicked input) (λ b. ok-ne_panicked _)))
  decode-ne_panicked function_sized input =
      if-ne_panicked (ltb (length input) 32) _
        (λ long. with_rest-ne_panicked input _ (read_function_type-ne_panicked _))
  decode-ne_panicked (uint_sized s) input =
      if-ne_panicked (ltb (length input) 32) _ (λ long. ok-ne_panicked _)
  decode-ne_panicked (int_sized s) input =
      if-ne_panicked (ltb (length input) 32) _ (λ long. ok-ne_panicked _)
  decode-ne_panicked (fixed_bytes_sized s h) input =
      if-ne_panicked (ltb (length input) 32) _ (λ long.
        with_rest-ne_panicked input _
          (read_fixed_bytes-ne_panicked s _ (drop 32 input) (first_word input long) h))
  decode-ne_panicked (array_sized n e h) input =
      if-ne_panicked (ltb (length input) 32) _
        (λ long. decode_array_slice-ne_panicked (decode e) _ array input n (decode-ne_panicked h))
  decode-ne_panicked (slice_sized e h) input = if-ne_panicked (ltb (length input) 32) _ (λ long.
      >>=-ne_panicked _ _ (read_length-ne_panicked input) (λ n.
        decode_array_slice-ne_panicked (decode e) _ slice (drop 32 input) n (decode-ne_panicked h)))
  decode-ne_panicked (tuple_sized es h) input = if-ne_panicked (ltb (length input) 32) _ (λ long.
      >>=-ne_panicked _ _ (decode_elems-ne_panicked h 0 input input no_fields)
        (λ r. ok-ne_panicked _))

  decode_elems-ne_panicked :
      {es : TupleElems}
      → AreSized es
      → (i : ℕ) (orig input : List ℕ) (res : Fields) → decode_elems es i orig input res ≢ panicked
  decode_elems-ne_panicked all_sized i orig input res = λ e. cc
  decode_elems-ne_panicked (elem_sized name e x es h hs) i orig input res =
      >>=-ne_panicked _ _ (decode_entry-ne_panicked (decode e) _ orig input (decode-ne_panicked h))
        (λ r.
          >>=-ne_panicked _ _ (insert_new-ne_panicked res (elem_key name i) r.0)
            (λ res'. decode_elems-ne_panicked hs (suc i) orig r.1 res'))

-- On any input, of any length and content, the decoder of a type whose fixed bytes fill a word at
-- most returns a value or an error, and never panics.
pub decode_value-ne_panicked :
    {t : AbiType} → IsSized t → (input : List ℕ) → decode_value t input ≢ panicked
unfolding decode_value
decode_value-ne_panicked h [] = λ e. cc
decode_value-ne_panicked {t} h (b ∷ bs) =
    >>=-ne_panicked _ _ (decode-ne_panicked h (b ∷ bs)) (λ r. ok-ne_panicked _)

-- Fixed bytes of more than 32 that the input does not hold make the decoder panic.
decode_value-panicked :
    (s : ℕ) (input : List ℕ)
    → length input < s
    → 32 ≤ length input
    → decode_value (fixed_bytes_type s) input ≡ panicked
unfolding decode_value decode read_fixed_bytes
decode_value-panicked s [] h k = absurd (omega arith)
decode_value-panicked s (b ∷ bs) h k =
    let long : ltb (length (b ∷ bs)) 32 ≡ false = ground arith in
    let whole : length (take 32 (b ∷ bs) ++ drop 32 (b ∷ bs)) ≡ length (b ∷ bs) = omega (
      arith,
      length-append (take 32 (b ∷ bs)) (drop 32 (b ∷ bs)),
      length-drop 32 (b ∷ bs),
      first_word (b ∷ bs) long,
    ) in
    let past : leb s (length (take 32 (b ∷ bs))) ≡ false =
      ground (arith, first_word (b ∷ bs) long) in
    let outside : leb s (length (take 32 (b ∷ bs) ++ drop 32 (b ∷ bs))) ≡ false =
      ground (arith, whole) in
    rw (long, past, outside) refl
