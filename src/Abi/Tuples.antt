-- ===== src/Abi/Tuples.antt =====
-- sdk/abi_decode.go: the loop of `decodeTuple`, on elements that the decoder reads from their parts.
use hiero_sdk_go.Base.{
  ℕ, suc, ◌+◌, ◌^◌, ◌≤◌, ◌<◌, ◌≡◌, refl, ap, ◌∙◌, Bool, true, false, List, ◌++◌, arith, ltb,
  if◌then◌else◌, length, drop, none, length-append, append_assoc, drop-drop,
}
use hiero_sdk_go.Base.Text.{Text}
use hiero_sdk_go.Abi.{
  AbiType, TupleElems, tuple_type, no_elems, tuple_elem, Value, Fields, go_map, no_fields, field,
  ok, failed, ◌>>=◌, map_index, is_dynamic_type,
}
use hiero_sdk_go.Abi.Encode.{elem_key}
use hiero_sdk_go.Abi.Decode.{snoc, decode, decode_elems, insert_new, as_map}
use hiero_sdk_go.Abi.Spec.{Parts, no_parts, part, heads_size, tails, heads, assemble}
use hiero_sdk_go.Abi.Sizes.{length-heads, length-assemble}
use hiero_sdk_go.Abi.Encoding.{fields_append, fields_append-snoc, later_offset}
use hiero_sdk_go.Abi.Reads.{holds_word, drop_prefix, decode_entry-part}

-- `decode` reads `v` off the front of any input that starts with `b`; where the type is static it
-- leaves the rest.
abbrev pub Reads : AbiType → Value → List ℕ → Type 0
Reads t v b =
    (rest : List ℕ)
    → (tail : List ℕ) × (decode t (b ++ rest) ≡ ok (v, tail))
      × (is_dynamic_type t ≡ false → tail ≡ rest)

-- The position of the tails behind a part, in the input and in what is left of it.
pub later_tails :
    (d : Bool) (b : List ℕ) (ps : Parts) (offset : ℕ) (orig more : List ℕ)
    → drop offset orig ≡ tails (part d b ps) ++ more
    → drop (if d then offset + length b else offset) orig ≡ tails ps ++ more
unfolding tails
later_tails true b ps offset orig more h =
    drop-drop offset (length b) orig
    ∙ ap (λ l. drop (length b) l) (h ∙ append_assoc b (tails ps) more)
    ∙ drop_prefix (length b) b (tails ps ++ more) refl
later_tails false b ps offset orig more h = h

pub later_inside :
    (d : Bool) (b : List ℕ) (ps : Parts) (offset n : ℕ)
    → offset + length (tails (part d b ps)) ≤ n
    → (if d then offset + length b else offset) + length (tails ps) ≤ n
unfolding tails
later_inside true b ps offset n h = omega (arith, length-append b (tails ps))
later_inside false b ps offset n h = h

pub later_tail :
    (d : Bool) (b : List ℕ) (ps : Parts)
    → length (tails (part d b ps)) < 2 ^ 63
    → length (tails ps) < 2 ^ 63
unfolding tails
later_tail true b ps h = omega (arith, length-append b (tails ps))
later_tail false b ps h = h

-- The heads and the tails of a sequence, before other bytes.
pub assemble_append :
    (ps : Parts) (rest : List ℕ)
    → assemble ps ++ rest ≡ heads (heads_size ps) ps ++ (tails ps ++ rest)
unfolding assemble
assemble_append ps rest = append_assoc (heads (heads_size ps) ps) (tails ps) rest

pub tails_position :
    (ps : Parts) (rest : List ℕ) → drop (heads_size ps) (assemble ps ++ rest) ≡ tails ps ++ rest
tails_position ps rest =
    rw (assemble_append ps rest) (
      drop_prefix (heads_size ps) (heads (heads_size ps) ps) (tails ps ++ rest) (length-heads _ ps))

pub tails_inside :
    (ps : Parts) (rest : List ℕ) → heads_size ps + length (tails ps) ≤ length (assemble ps ++ rest)
tails_inside ps rest = omega (arith, length-assemble ps, length-append (assemble ps) rest)

pub fields_append-nil : (fs : Fields) → fields_append fs no_fields ≡ fs
unfolding fields_append
fields_append-nil no_fields = refl
fields_append-nil (field n v fs) = ap (field n v) (fields_append-nil fs)

insert_new_lem :
    (res : Fields) (name : Text) (v : Value)
    → map_index name res ≡ none
    → insert_new res name v ≡ ok (snoc res name v)
unfolding insert_new
insert_new_lem res name v h = rw (h, insert_new) refl

-- The entries of a tuple's map, each read from its part, from position `i` and behind `seen`.
pub data ElemsRead : TupleElems → ℕ → Fields → Fields → Parts → Type 0 where
  no_more : (i : ℕ) (seen : Fields) → ElemsRead no_elems i seen no_fields no_parts
  one_elem :
      (name : Text) (e : AbiType) (x : Bool) (es : TupleElems) (i : ℕ) (seen : Fields) (v : Value)
      (fs : Fields) (b : List ℕ) (ps : Parts)
      → map_index (elem_key name i) seen ≡ none
      → 32 ≤ length b
      → Reads e v b
      → ElemsRead es (suc i) (snoc seen (elem_key name i) v) fs ps
      → ElemsRead
          (tuple_elem name e x es)
          i
          seen
          (field (elem_key name i) v fs)
          (part (is_dynamic_type e) b ps)

decode_elems-parts :
    {es : TupleElems} {i : ℕ} {seen fs : Fields} {ps : Parts} (h : ElemsRead es i seen fs ps)
    (offset : ℕ) (orig more trailing : List ℕ)
    → offset + length (tails ps) < 2 ^ 63
    → offset + length (tails ps) ≤ length orig
    → drop offset orig ≡ tails ps ++ more
    → decode_elems es i orig (heads offset ps ++ trailing) seen
      ≡ ok (fields_append seen fs, trailing)
unfolding decode heads fields_append
decode_elems-parts (no_more i seen) offset orig more trailing l q at = rw fields_append-nil
decode_elems-parts (one_elem name e x es i seen v fs b ps new long reads h) offset orig more
      trailing l q at =
    let d : Bool = is_dynamic_type e in
    rw
      (
        decode_entry-part (decode e) d b v ps offset orig more trailing long reads at (omega arith)
            (omega arith),
        insert_new_lem seen (elem_key name i) v new,
        decode_elems-parts h (if d then offset + length b else offset) orig more trailing
            (later_offset d b ps offset l) (later_inside d b ps offset (length orig) q)
            (later_tails d b ps offset orig more at),
        fields_append-snoc seen (elem_key name i) v fs,
      )
      refl

-- A tuple from its loop.
tuple_case :
    (es : TupleElems) (fs : Fields) (ps : Parts) (rest : List ℕ)
    → 32 ≤ length (assemble ps)
    → decode_elems es 0
        (assemble ps ++ rest)
        (heads (heads_size ps) ps ++ (tails ps ++ rest))
        no_fields
      ≡ ok (fs, tails ps ++ rest)
    → (if ltb (length (assemble ps ++ rest)) 32
        then failed
        else decode_elems es 0 (assemble ps ++ rest) (assemble ps ++ rest) no_fields >>= as_map)
      ≡ ok (go_map fs, tails ps ++ rest)
tuple_case es fs ps rest h e =
    let run : decode_elems es 0 (assemble ps ++ rest) (assemble ps ++ rest) no_fields
        ≡ ok (fs, tails ps ++ rest) =
      ap (λ l. decode_elems es 0 (assemble ps ++ rest) l no_fields) (assemble_append ps rest) ∙ e in
    rw (holds_word (assemble ps) rest h, run) refl

-- A tuple whose elements are read from their parts is read from the parts assembled.
pub decode-tuple :
    (es : TupleElems) (fs : Fields) (ps : Parts) (rest : List ℕ)
    → ElemsRead es 0 no_fields fs ps
    → 32 ≤ length (assemble ps)
    → length (assemble ps) < 2 ^ 63
    → decode (tuple_type es) (assemble ps ++ rest) ≡ ok (go_map fs, tails ps ++ rest)
unfolding decode fields_append
decode-tuple es fs ps rest h long small =
    let sizes : length (assemble ps) ≡ heads_size ps + length (tails ps) = length-assemble ps in
    tuple_case es fs ps rest long (
      decode_elems-parts h (heads_size ps) (assemble ps ++ rest) rest (tails ps ++ rest)
        (omega arith) (tails_inside ps rest) (tails_position ps rest))
