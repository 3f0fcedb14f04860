-- ===== src/Abi/Soundness.antt =====
-- sdk/abi_decode.go: the values of the decoder have the form of their type.
use hiero_sdk_go.Base.{
  ℕ, zero, suc, ◌*◌, ◌≡◌, refl, sym, ap, ◌∙◌, Bool, inl, inr, Option-cases, none, List, [], ◌∷◌,
  ltb, length, take, drop,
}
use hiero_sdk_go.Base.Text.{Text}
use hiero_sdk_go.Abi.{
  AbiType, TupleElems, bool_type, string_type, address_type, bytes_type, function_type, uint_type,
  int_type, fixed_bytes_type, array_type, slice_type, tuple_type, no_elems, tuple_elem, Value,
  Values, Fields, slice, array, go_map, no_fields, field, Result, ok, ◌>>=◌, map_index,
  is_dynamic_type, values_length,
}
use hiero_sdk_go.Abi.Encode.{elem_key}
use hiero_sdk_go.Abi.Encoding.{fields_append, fields_append-snoc}
use hiero_sdk_go.Abi.Tuples.{fields_append-nil}
use hiero_sdk_go.Abi.Decode.{
  decode, decode_elems, decode_items, decode_array_slice, decode_entry, insert_new, decode_value,
  as_map, with_rest, read_bytes, read_length, read_offset, snoc,
}
use hiero_sdk_go.Abi.Typed.{
  HasType, string_typed, bytes_typed, slice_typed, array_typed, tuple_typed, AllTyped, none_typed,
  more_typed, ElemsTyped, no_elem_typed, elem_typed, Yields, >>=-Yields, any-Yields, checked-Yields,
  branch-Yields, weaker-Yields, word_length, decode_bool-HasType, read_addr-HasType,
  read_fixed_bytes-HasType, read_function_type-HasType, read_uint-HasType, read_int-HasType,
}

-- A call that decodes a value of a type.
abbrev Typed : AbiType → Result (Value × List ℕ) → Type 0
Typed e = Yields (λ r. HasType e r.0)

with_rest-Typed :
    (e : AbiType) (input : List ℕ) (r : Result Value)
    → Yields (HasType e) r
    → Typed e (with_rest input r)
with_rest-Typed e input r h = >>=-Yields (HasType e) (λ q. HasType e q.0) r _ h (λ v k. k)

decode_entry-Typed :
    (e : AbiType) (d : Bool) (orig input : List ℕ)
    → ((b : List ℕ) → Typed e (decode e b))
    → Typed e (decode_entry (decode e) d orig input)
unfolding decode_entry
decode_entry-Typed e d orig input h =
    checked-Yields (λ r. HasType e r.0) (ltb (length input) 32) _
      (λ _.
        branch-Yields (λ r. HasType e r.0) d
          (read_offset input (length orig) >>= λ o.
            decode e (drop o orig) >>= λ r. ok (r.0, drop 32 input))
          (decode e input)
          (>>=-Yields (λ o. Unit {0}) (λ r. HasType e r.0) (read_offset input (length orig)) _
            (any-Yields (read_offset input (length orig)))
            (λ o _.
              >>=-Yields (λ r. HasType e r.0) (λ r. HasType e r.0) (decode e (drop o orig)) _
                (h (drop o orig)) (λ r k. k)))
          (h input))

-- So many values of a type.
abbrev AllOf : AbiType → ℕ → Values → Type 0
AllOf e n vs = (values_length vs ≡ n) × AllTyped e vs

decode_items-AllTyped :
    (e : AbiType) (d : Bool) (n : ℕ) (orig input : List ℕ)
    → ((b : List ℕ) → Typed e (decode e b))
    → Yields (λ r. AllOf e n r.0) (decode_items (decode e) d n orig input)
unfolding decode_items
decode_items-AllTyped e d zero orig input h = (refl, none_typed e)
decode_items-AllTyped e d (suc n) orig input h =
    >>=-Yields (λ r. HasType e r.0) (λ r. AllOf e (suc n) r.0)
      (decode_entry (decode e) d orig input) _ (decode_entry-Typed e d orig input h)
      (λ r k.
        >>=-Yields (λ q. AllOf e n q.0) (λ q. AllOf e (suc n) q.0)
          (decode_items (decode e) d n orig r.1) _ (decode_items-AllTyped e d n orig r.1 h)
          (λ q l. (ap suc l.0, more_typed e r.0 q.0 k l.1)))

decode_array_slice-Yields :
    (P : Value → Type 0) (e : AbiType) (d : Bool) (make : Values → Value) (input : List ℕ) (n : ℕ)
    → ((b : List ℕ) → Typed e (decode e b))
    → ((vs : Values) → AllOf e n vs → P (make vs))
    → Yields (λ r. P r.0) (decode_array_slice (decode e) d make input n)
unfolding decode_array_slice
decode_array_slice-Yields P e d make input n h k =
    checked-Yields (λ r. P r.0) (ltb (length input) (32 * n)) _
      (λ _.
        >>=-Yields (λ r. AllOf e n r.0) (λ r. P r.0) (decode_items (decode e) d n input input) _
          (decode_items-AllTyped e d n input input h) (λ r l. k r.0 l))

-- The entries that a tuple's loop adds behind those that are there.
abbrev Extends : TupleElems → ℕ → Fields → Fields → Type 0
Extends es i seen res = (fs : Fields) × (res ≡ fields_append seen fs) × ElemsTyped es i seen fs

insert_new-Yields :
    (res : Fields) (name : Text) (v : Value)
    → Yields (λ r. (map_index name res ≡ none) × (r ≡ snoc res name v)) (insert_new res name v)
unfolding insert_new
insert_new-Yields res name v = elim (Option-cases (map_index name res)) [
  | inl e ↦ rw (Yields, insert_new, e) (e, refl)
  | inr (w, e) ↦ rw (Yields, insert_new, e) tt
]

tuple_of :
    (es : TupleElems) (res : Fields)
    → Extends es 0 no_fields res
    → HasType (tuple_type es) (go_map res)
unfolding fields_append
tuple_of es res h = let (fs, e, typed) = h in rw e (tuple_typed es fs typed)

extended :
    (name : Text) (e : AbiType) (x : Bool) (es : TupleElems) (i : ℕ) (seen : Fields) (v : Value)
    (res all : Fields)
    → map_index (elem_key name i) seen ≡ none
    → res ≡ snoc seen (elem_key name i) v
    → HasType e v
    → Extends es (suc i) res all
    → Extends (tuple_elem name e x es) i seen all
extended name e x es i seen v res all new same typed h =
    let k : Text = elem_key name i in
    let later : Extends es (suc i) (snoc seen k v) all = rw same at h in
    let (fs, whole, rest) = later in
    (
      field k v fs,
      whole ∙ fields_append-snoc seen k v fs,
      elem_typed name e x es i seen v fs new typed rest,
    )

mutual
  unfolding decode

  decode-Typed : (t : AbiType) (input : List ℕ) → Typed t (decode t input)
  decode-Typed bool_type input =
      checked-Yields (λ r. HasType bool_type r.0) (ltb (length input) 32) _
        (λ _. with_rest-Typed bool_type input _ (decode_bool-HasType (take 32 input)))
  decode-Typed string_type input =
      checked-Yields (λ r. HasType string_type r.0) (ltb (length input) 32) _
        (λ _. with_rest-Typed string_type input _ (
          >>=-Yields (λ b. Unit {0}) (HasType string_type) (read_bytes input) _
            (any-Yields (read_bytes input)) (λ b _. string_typed b)))
  decode-Typed bytes_type input =
      checked-Yields (λ r. HasType bytes_type r.0) (ltb (length input) 32) _
        (λ _. with_rest-Typed bytes_type input _ (
          >>=-Yields (λ b. Unit {0}) (HasType bytes_type) (read_bytes input) _
            (any-Yields (read_bytes input)) (λ b _. bytes_typed b)))
  decode-Typed address_type input =
      checked-Yields (λ r. HasType address_type r.0) (ltb (length input) 32) _
        (λ _. with_rest-Typed address_type input _ (read_addr-HasType (take 32 input)))
  decode-Typed function_type input =
      checked-Yields (λ r. HasType function_type r.0) (ltb (length input) 32) _
        (λ long.
          with_rest-Typed function_type input _
            (read_function_type-HasType (take 32 input) (word_length input long)))
  decode-Typed (uint_type s) input =
      checked-Yields (λ r. HasType (uint_type s) r.0) (ltb (length input) 32) _
        (λ _. read_uint-HasType s (take 32 input))
  decode-Typed (int_type s) input =
      checked-Yields (λ r. HasType (int_type s) r.0) (ltb (length input) 32) _
        (λ _. read_int-HasType s (take 32 input))
  decode-Typed (fixed_bytes_type s) input =
      checked-Yields (λ r. HasType (fixed_bytes_type s) r.0) (ltb (length input) 32) _
        (λ _.
          with_rest-Typed (fixed_bytes_type s) input _
            (read_fixed_bytes-HasType s (take 32 input) (drop 32 input)))
  decode-Typed (array_type n e) input =
      checked-Yields (λ r. HasType (array_type n e) r.0) (ltb (length input) 32) _
        (λ _.
          decode_array_slice-Yields (HasType (array_type n e)) e _ array input n (decode-Typed e)
            (λ vs h. array_typed n e vs h.0 h.1))
  decode-Typed (slice_type e) input =
      checked-Yields (λ r. HasType (slice_type e) r.0) (ltb (length input) 32) _
        (λ _.
          >>=-Yields (λ n. Unit {0}) (λ r. HasType (slice_type e) r.0) (read_length input) _
            (any-Yields (read_length input))
            (λ n _.
              decode_array_slice-Yields (HasType (slice_type e)) e _ slice (drop 32 input) n
                (decode-Typed e) (λ vs h. slice_typed e vs h.1)))
  decode-Typed (tuple_type es) input =
      checked-Yields (λ r. HasType (tuple_type es) r.0) (ltb (length input) 32) _
        (λ _.
          >>=-Yields (λ r. Extends es 0 no_fields r.0) (λ r. HasType (tuple_type es) r.0)
            (decode_elems es 0 input input no_fields) as_map
            (decode_elems-Extends es 0 input input no_fields) (λ r h. tuple_of es r.0 h))

  decode_elems-Extends :
      (es : TupleElems) (i : ℕ) (orig input : List ℕ) (seen : Fields)
      → Yields (λ r. Extends es i seen r.0) (decode_elems es i orig input seen)
  decode_elems-Extends no_elems i orig input seen =
      (no_fields, sym (fields_append-nil seen), no_elem_typed i seen)
  decode_elems-Extends (tuple_elem name e x es) i orig input seen =
      >>=-Yields (λ r. HasType e r.0) (λ r. Extends (tuple_elem name e x es) i seen r.0)
        (decode_entry (decode e) (is_dynamic_type e) orig input) _
        (decode_entry-Typed e (is_dynamic_type e) orig input (decode-Typed e))
        (λ r k.
          >>=-Yields
            (λ q. (map_index (elem_key name i) seen ≡ none) × (q ≡ snoc seen (elem_key name i) r.0))
            (λ q. Extends (tuple_elem name e x es) i seen q.0)
            (insert_new seen (elem_key name i) r.0) _ (insert_new-Yields seen (elem_key name i) r.0)
            (λ res l.
              weaker-Yields (λ q. Extends es (suc i) res q.0)
                (λ q. Extends (tuple_elem name e x es) i seen q.0)
                (decode_elems es (suc i) orig r.1 res)
                (decode_elems-Extends es (suc i) orig r.1 res)
                (λ q m. extended name e x es i seen r.0 res q.0 l.0 l.1 k m)))

decode_value-Yields : (t : AbiType) (input : List ℕ) → Yields (HasType t) (decode_value t input)
unfolding decode_value
decode_value-Yields t [] = tt
decode_value-Yields t (b ∷ bs) =
    >>=-Yields (λ r. HasType t r.0) (HasType t) (decode t (b ∷ bs)) _ (decode-Typed t (b ∷ bs))
      (λ r k. k)

-- Whatever the input, a value that `Decode` returns for a type is of the form that the codec has for the
-- type (a Go number, a big integer, a string, an array or a slice of such values), arrays, addresses,
-- functions and fixed bytes have the type's length, and the map of a tuple has exactly one entry for each
-- element, in the elements' order, under the element's key, and no key twice. The ranges of the numbers
-- are not part of the form.
pub decode_value-HasType :
    (t : AbiType) (input : List ℕ) (v : Value) → decode_value t input ≡ ok v → HasType t v
decode_value-HasType t input v e =
    let y : Yields (HasType t) (decode_value t input) = decode_value-Yields t input in yielded y
  where
    yielded : Yields (HasType t) (decode_value t input) → HasType t v
    yielded y = rw e at y
