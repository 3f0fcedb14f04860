-- ===== src/Abi/Typed.antt =====
-- sdk/abi_decode.go: the form of the values that the decoder returns.
use hiero_sdk_go.Base.{
  ◌++◌, ℕ, suc, ◌≡◌, refl, Bool, true, false, inl, inr, ◌⊎◌, Bool-cases, Option-cases, none, List,
  arith, ltb, leb, ◌==◌, if◌then◌else◌, length, take, drop, get_elem?, length-drop,
}
use hiero_sdk_go.Base.Int.{ℤ, pos}
use hiero_sdk_go.Base.Text.{Text}
use hiero_sdk_go.Abi.{
  AbiType, TupleElems, bool_type, string_type, address_type, bytes_type, function_type, uint_type,
  int_type, fixed_bytes_type, array_type, slice_type, tuple_type, no_elems, tuple_elem, Value,
  Values, Fields, bool, uint, int, big_int, string, slice, array, go_map, no_values, value,
  no_fields, field, Result, ok, failed, panicked, ◌>>=◌, map_index, is_native, values_length,
}
use hiero_sdk_go.Abi.Encode.{elem_key}
use hiero_sdk_go.Abi.Encoding.{native_cases}
use hiero_sdk_go.Abi.Reads.{not_native}
use hiero_sdk_go.Abi.Decode.{
  bytes_values, read_uint, read_int, read_addr, read_fixed_bytes, read_function_type, decode_bool,
  snoc, all_zeros,
}
use hiero_sdk_go.Abi.Safe.{length-take}

-- `HasType t v`: `v` is of the Go type that the codec has for `t`, with the lengths that `t` gives, and
-- an entry in its place for each element of a tuple, under keys that differ.
mutual
  pub data HasType : AbiType → Value → Type 0 where
    bool_typed : (b : Bool) → HasType bool_type (bool b)
    string_typed : (s : Text) → HasType string_type (string s)
    bytes_typed : (b : List ℕ) → HasType bytes_type (slice (bytes_values b))
    address_typed : (b : List ℕ) → length b ≡ 20 → HasType address_type (array (bytes_values b))
    function_typed : (b : List ℕ) → length b ≡ 24 → HasType function_type (array (bytes_values b))
    fixed_bytes_typed :
        (s : ℕ) (b : List ℕ) → length b ≡ s → HasType (fixed_bytes_type s) (array (bytes_values b))
    uint_typed : (s n : ℕ) → is_native s ≡ true → HasType (uint_type s) (uint s n)
    big_uint_typed : (s n : ℕ) → is_native s ≡ false → HasType (uint_type s) (big_int (pos n))
    int_typed : (s : ℕ) (z : ℤ) → is_native s ≡ true → HasType (int_type s) (int s z)
    big_int_typed : (s : ℕ) (z : ℤ) → is_native s ≡ false → HasType (int_type s) (big_int z)
    slice_typed : (e : AbiType) (vs : Values) → AllTyped e vs → HasType (slice_type e) (slice vs)
    array_typed :
        (n : ℕ) (e : AbiType) (vs : Values)
        → values_length vs ≡ n
        → AllTyped e vs
        → HasType (array_type n e) (array vs)
    tuple_typed :
        (es : TupleElems) (fs : Fields)
        → ElemsTyped es 0 no_fields fs
        → HasType (tuple_type es) (go_map fs)

  pub data AllTyped : AbiType → Values → Type 0 where
    none_typed : (e : AbiType) → AllTyped e no_values
    more_typed :
        (e : AbiType) (v : Value) (vs : Values)
        → HasType e v
        → AllTyped e vs
        → AllTyped e (value v vs)

  pub data ElemsTyped : TupleElems → ℕ → Fields → Fields → Type 0 where
    no_elem_typed : (i : ℕ) (seen : Fields) → ElemsTyped no_elems i seen no_fields
    elem_typed :
        (name : Text) (e : AbiType) (x : Bool) (es : TupleElems) (i : ℕ) (seen : Fields) (v : Value)
        (fs : Fields)
        → map_index (elem_key name i) seen ≡ none
        → HasType e v
        → ElemsTyped es (suc i) (snoc seen (elem_key name i) v) fs
        → ElemsTyped (tuple_elem name e x es) i seen (field (elem_key name i) v fs)

-- What holds of the result, if there is one.
abbrev pub Yields {ℓ κ} : {A : Type ℓ} → (A → Type κ) → Result A → Type κ
Yields P (ok a) = P a
Yields P failed = Unit
Yields P panicked = Unit

pub >>=-Yields {ℓ κ} :
    {A B : Type ℓ} (Q : A → Type κ) (P : B → Type κ) (m : Result A) (f : A → Result B)
    → Yields Q m
    → ((a : A) → Q a → Yields P (f a))
    → Yields P (m >>= f)
>>=-Yields Q P (ok a) f h k = k a h
>>=-Yields Q P failed f h k = tt
>>=-Yields Q P panicked f h k = tt

-- What holds of a result in one way holds of it in a weaker one.
pub weaker-Yields {ℓ κ} :
    {A : Type ℓ} (Q P : A → Type κ) (m : Result A) → Yields Q m → ((a : A) → Q a → P a) → Yields P m
weaker-Yields Q P (ok a) h k = k a h
weaker-Yields Q P failed h k = tt
weaker-Yields Q P panicked h k = tt

pub any-Yields {ℓ} : {A : Type ℓ} (m : Result A) → Yields (λ (a : A). Unit {0}) m
any-Yields (ok a) = tt
any-Yields failed = tt
any-Yields panicked = tt

pub checked-Yields {ℓ κ} :
    {A : Type ℓ} (P : A → Type κ) (b : Bool) (r : Result A)
    → (b ≡ false → Yields P r)
    → Yields P (if b then failed else r)
checked-Yields P true r h = tt
checked-Yields P false r h = h refl

pub word_length : (input : List ℕ) → ltb (length input) 32 ≡ false → length (take 32 input) ≡ 32
word_length input h = length-take 32 input (ground arith)

pub branch-Yields {ℓ κ} :
    {A : Type ℓ} (P : A → Type κ) (b : Bool) (r r' : Result A)
    → Yields P r
    → Yields P r'
    → Yields P (if b then r else r')
branch-Yields P true r r' h k = h
branch-Yields P false r r' h k = k

pub decode_bool-HasType : (w : List ℕ) → Yields (HasType bool_type) (decode_bool w)
unfolding decode_bool
decode_bool-HasType w = elim (Option-cases (get_elem? w 31)) [
  | inl e ↦ rw (Yields, decode_bool, e) tt
  | inr (b, e) ↦
      rw (Yields, decode_bool, e)
        (branch-Yields (HasType bool_type) (b == 0) (ok (bool false))
          (if b == 1 then ok (bool true) else failed) (bool_typed false)
          (branch-Yields (HasType bool_type) (b == 1) (ok (bool true)) failed (bool_typed true) tt))
]

pub read_addr-HasType : (w : List ℕ) → Yields (HasType address_type) (read_addr w)
unfolding read_addr
read_addr-HasType w = elim (Bool-cases (length w == 32)) [
  | inl e ↦ rw e (address_typed (drop 12 w) (ground (arith, length-drop 12 w)))
  | inr e ↦ rw e tt
]

pub read_fixed_bytes-HasType :
    (s : ℕ) (w behind : List ℕ)
    → Yields (HasType (fixed_bytes_type s)) (read_fixed_bytes s w behind)
unfolding read_fixed_bytes
read_fixed_bytes-HasType s w behind = elim (Bool-cases (leb s (length w))) [
  | inl e ↦ rw e (fixed_bytes_typed s (take s w) (length-take s w (ground arith)))
  | inr e ↦ elim (Bool-cases (leb s (length (w ++ behind)))) [
    | inl e' ↦
        rw (e, e')
          (fixed_bytes_typed s (take s (w ++ behind)) (length-take s (w ++ behind) (ground arith)))
    | inr e' ↦ rw (e, e') tt
  ]
]

pub read_function_type-HasType :
    (w : List ℕ) → length w ≡ 32 → Yields (HasType function_type) (read_function_type w)
unfolding read_function_type
read_function_type-HasType w h =
    branch-Yields (HasType function_type) (all_zeros (drop 24 w))
      (ok (array (bytes_values (take 24 w)))) failed
      (function_typed (take 24 w) (length-take 24 w (omega arith))) tt

pub read_uint-HasType : (s : ℕ) (w : List ℕ) → HasType (uint_type s) (read_uint s w)
unfolding read_uint is_native
read_uint-HasType s w = elim (Bool-cases (is_native s)) [
  | inl e ↦ native_read (native_cases s e)
  | inr e ↦ let (a, b, c, d) = not_native s e in rw (a, b, c, d) (big_uint_typed s _ e)
]
  where
    native_read : (s ≡ 8) ⊎ (s ≡ 16) ⊎ (s ≡ 32) ⊎ (s ≡ 64) → HasType (uint_type s) (read_uint s w)
    native_read (inl e) = rw e (uint_typed 8 _ refl)
    native_read (inr (inl e)) = rw e (uint_typed 16 _ refl)
    native_read (inr (inr (inl e))) = rw e (uint_typed 32 _ refl)
    native_read (inr (inr (inr e))) = rw e (uint_typed 64 _ refl)

pub read_int-HasType : (s : ℕ) (w : List ℕ) → HasType (int_type s) (read_int s w)
unfolding read_int is_native
read_int-HasType s w = elim (Bool-cases (is_native s)) [
  | inl e ↦ native_read (native_cases s e)
  | inr e ↦ let (a, b, c, d) = not_native s e in rw (a, b, c, d) (big_int_typed s _ e)
]
  where
    native_read : (s ≡ 8) ⊎ (s ≡ 16) ⊎ (s ≡ 32) ⊎ (s ≡ 64) → HasType (int_type s) (read_int s w)
    native_read (inl e) = rw e (int_typed 8 _ refl)
    native_read (inr (inl e)) = rw e (int_typed 16 _ refl)
    native_read (inr (inr (inl e))) = rw e (int_typed 32 _ refl)
    native_read (inr (inr (inr e))) = rw e (int_typed 64 _ refl)
