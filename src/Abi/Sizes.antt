-- ===== src/Abi/Sizes.antt =====
-- sdk/abi_type.go: `getTypeSize` against the lengths of encodings.
use hiero_sdk_go.Base.{
  ℕ, suc, ◌+◌, ◌-◌, ◌*◌, ◌≤◌, ◌≡◌, refl, sym, ap, ◌∙◌, Bool, true, false, inl, inr, Bool-cases,
  List, [], ◌++◌, arith, if◌then◌else◌, length, length-append,
}
use hiero_sdk_go.Abi.{
  AbiType, TupleElems, bool_type, string_type, bytes_type, array_type, slice_type, tuple_type,
  Value, Values, Fields, values_length, is_dynamic_type, has_dynamic_elem, get_type_size,
  elems_size, elems_length,
}
use hiero_sdk_go.Abi.Words.{word, zeros, length-word, length-zeros, u256}
use hiero_sdk_go.Abi.Spec.{
  Fits, AllFit, TupleFits, bool_fits, uint_fits, big_uint_fits, int_fits, big_int_fits, string_fits,
  bytes_fits, address_fits, fixed_bytes_fits, function_fits, slice_fits, array_fits, tuple_fits,
  none_left, one_more, last_elem, next_elem, Parts, no_parts, part, head_size, heads_size, tails,
  heads, assemble, filling, encoding, item_parts, elem_parts,
}

-- A dynamic type takes one word of the heads.
pub get_type_size-dynamic : (t : AbiType) → is_dynamic_type t ≡ true → get_type_size t ≡ 32
unfolding is_dynamic_type get_type_size
get_type_size-dynamic (array_type n e) h = rw h
get_type_size-dynamic (tuple_type es) h = rw h
get_type_size-dynamic bool_type h = refl
get_type_size-dynamic _ h = refl

-- A static array takes the sizes of its elements, whichever branch computes them.
get_type_size-array :
    (n : ℕ) (e : AbiType)
    → is_dynamic_type e ≡ false
    → get_type_size (array_type n e) ≡ n * get_type_size e
unfolding is_dynamic_type get_type_size
get_type_size-array n (array_type m e) h = rw h
get_type_size-array n (tuple_type es) h = rw h
get_type_size-array n bool_type h = refl
get_type_size-array n string_type h = cc
get_type_size-array n bytes_type h = cc
get_type_size-array n (slice_type e) h = cc
get_type_size-array n _ h = refl

pub length-heads : (offset : ℕ) (ps : Parts) → length (heads offset ps) ≡ heads_size ps
unfolding heads heads_size
length-heads offset no_parts = refl
length-heads offset (part true b ps) = omega (
  arith,
  length-append (word offset) (heads (offset + length b) ps),
  length-word offset,
  length-heads (offset + length b) ps,
)
length-heads offset (part false b ps) =
    omega (arith, length-append b (heads offset ps), length-heads offset ps)

pub length-assemble : (ps : Parts) → length (assemble ps) ≡ heads_size ps + length (tails ps)
unfolding assemble
length-assemble ps =
    omega
      (arith, length-append (heads (heads_size ps) ps) (tails ps), length-heads (heads_size ps) ps)

-- Parts of a static type have no tails.
pub tails-items :
    {e : AbiType} {vs : Values} (h : AllFit e vs)
    → is_dynamic_type e ≡ false
    → tails (item_parts h) ≡ []
unfolding tails encoding
tails-items (none_left e) s = refl
tails-items (one_more e v vs h hs) s = rw s (tails-items hs s)

pub tails-elems :
    {es : TupleElems} {i : ℕ} {seen fs : Fields} (h : TupleFits es i seen fs)
    → has_dynamic_elem es ≡ false
    → tails (elem_parts h) ≡ []
unfolding tails encoding is_dynamic_type
tails-elems (last_elem i seen) s = refl
tails-elems (next_elem name e x es i seen v fs k h hs) s =
    let here : is_dynamic_type e ≡ false = ground arith in
    let later : has_dynamic_elem es ≡ false = ground arith in rw here (tails-elems hs later)

suc_mul : (n k : ℕ) → suc n * k ≡ k + n * k
suc_mul n k = grind arith

padded : (a b : List ℕ) (n k : ℕ) → length a ≡ n → length b ≡ k → length (a ++ b) ≡ n + k
padded a b n k h l = omega (arith, length-append a b)

-- The head of a part, for its type's size.
head_size-get_type_size :
    (e : AbiType) (b : List ℕ)
    → (is_dynamic_type e ≡ false → length b ≡ get_type_size e)
    → head_size (is_dynamic_type e) b ≡ get_type_size e
head_size-get_type_size e b h = elim (Bool-cases (is_dynamic_type e)) [
  | inl d ↦ rw d (sym (get_type_size-dynamic e d))
  | inr d ↦ rw d (h d)
]

mutual
  unfolding encoding heads_size is_dynamic_type get_type_size

  static_length :
      {t : AbiType} {v : Value} (h : Fits t v)
      → is_dynamic_type t ≡ false
      → length (encoding h) ≡ get_type_size t
  static_length (bool_fits b) s = length-word (if b then 1 else 0)
  static_length (uint_fits k n w h) s = length-word n
  static_length (big_uint_fits k n w h) s = length-word n
  static_length (int_fits k z w h) s = length-word _
  static_length (big_int_fits k z w h) s = length-word _
  static_length (string_fits b) s = cc
  static_length (bytes_fits b) s = cc
  static_length (address_fits b h) s = padded (zeros 12) b 12 20 refl h
  static_length (fixed_bytes_fits k b h l) s =
      (padded b (zeros (32 - k)) k (32 - k) h (length-zeros (32 - k)) ∙ omega arith)
  static_length (function_fits b h) s = padded b (zeros 8) 24 8 h refl
  static_length (slice_fits e vs h) s = cc
  static_length (array_fits n e vs l p h) s = omega (
    arith,
    length-assemble (item_parts h),
    ap length (tails-items h s),
    heads_size-items h,
    ap (λ (k : ℕ). k * get_type_size e) l,
    get_type_size-array n e s,
  )
  static_length (tuple_fits name e x es fs h) s = rw s (
      omega
        (arith, length-assemble (elem_parts h), ap length (tails-elems h s), heads_size-elems h))

  pub heads_size-items :
      {e : AbiType} {vs : Values} (h : AllFit e vs)
      → heads_size (item_parts h) ≡ values_length vs * get_type_size e
  heads_size-items (none_left e) = omega arith
  heads_size-items (one_more e v vs h hs) = omega (
    arith,
    head_size-get_type_size e (encoding h) (static_length h),
    heads_size-items hs,
    suc_mul (values_length vs) (get_type_size e),
  )

  pub heads_size-elems :
      {es : TupleElems} {i : ℕ} {seen fs : Fields} (h : TupleFits es i seen fs)
      → heads_size (elem_parts h) ≡ elems_size es
  heads_size-elems (last_elem i seen) = refl
  heads_size-elems (next_elem name e x es i seen v fs k h hs) =
      omega (arith, head_size-get_type_size e (encoding h) (static_length h), heads_size-elems hs)

-- The size that `getTypeSize` gives a type that is not dynamic is the length of the encoding of each
-- value of the type, nested arrays and tuples included.
pub length-encoding :
    {t : AbiType} {v : Value} (h : Fits t v)
    → is_dynamic_type t ≡ false
    → length (encoding h) ≡ get_type_size t
length-encoding h s = static_length h s

pub head_long : (d : Bool) (b : List ℕ) → 32 ≤ length b → 32 ≤ head_size d b
head_long true b h = omega arith
head_long false b h = h

mutual
  unfolding encoding heads_size

  -- An encoding holds a word at least.
  pub encoding_long : {t : AbiType} {v : Value} (h : Fits t v) → 32 ≤ length (encoding h)
  encoding_long (bool_fits b) = omega (arith, length-word (if b then 1 else 0))
  encoding_long (uint_fits s n w h) = omega (arith, length-word n)
  encoding_long (big_uint_fits s n w h) = omega (arith, length-word n)
  encoding_long (int_fits s z w h) = omega (arith, length-word (u256 z))
  encoding_long (big_int_fits s z w h) = omega (arith, length-word (u256 z))
  encoding_long (string_fits s) =
      omega (arith, padded (word (length s)) (s ++ filling (length s)) 32 _ (length-word _) refl)
  encoding_long (bytes_fits b) =
      omega (arith, padded (word (length b)) (b ++ filling (length b)) 32 _ (length-word _) refl)
  encoding_long (address_fits b h) = omega (arith, padded (zeros 12) b 12 20 refl h)
  encoding_long (fixed_bytes_fits s b h k) =
      omega (arith, padded b (zeros (32 - s)) s (32 - s) h (length-zeros (32 - s)))
  encoding_long (function_fits b h) = omega (arith, padded b (zeros 8) 24 8 h refl)
  encoding_long (slice_fits e vs h) =
      omega (
        arith,
        padded (word (values_length vs)) (assemble (item_parts h)) 32 _ (length-word _) refl,
      )
  encoding_long (array_fits n e vs l p h) =
      omega (arith, length-assemble (item_parts h), items_long h)
  encoding_long (tuple_fits name e x es fs h) =
      omega (arith, length-assemble (elem_parts h), elems_long h)

  pub items_long :
      {e : AbiType} {vs : Values} (h : AllFit e vs)
      → 32 * values_length vs ≤ heads_size (item_parts h)
  items_long (none_left e) = omega arith
  items_long (one_more e v vs h hs) =
      omega (arith, head_long (is_dynamic_type e) (encoding h) (encoding_long h), items_long hs)

  pub elems_long :
      {es : TupleElems} {i : ℕ} {seen fs : Fields} (h : TupleFits es i seen fs)
      → 32 * elems_length es ≤ heads_size (elem_parts h)
  elems_long (last_elem i seen) = omega arith
  elems_long (next_elem name e x es i seen v fs k h hs) =
      omega (arith, head_long (is_dynamic_type e) (encoding h) (encoding_long h), elems_long hs)
