-- ===== src/Contract/ArrayWrites.antt =====
-- sdk/contract_function_parameters.go: the buffers that the array methods write.
use hiero_sdk_go.Base.{
  ℕ, zero, suc, ◌+◌, ◌-◌, ◌*◌, ◌^◌, ◌≤◌, ◌<◌, ◌≡◌, refl, sym, ap, ◌∙◌, true, false, inl, inr,
  Bool-cases, List, [], ◌∷◌, ◌++◌, map, arith, ltb, length, take, drop, All, length-append,
  append_assoc, append-nil,
}
use hiero_sdk_go.Base.Int.{ℤ}
use hiero_sdk_go.Abi.{
  Values, uint, no_values, value, uint_type, ok, panicked, values_length, is_native,
  is_dynamic_type,
}
use hiero_sdk_go.Abi.Words.{word, zeros, low_bytes, length-word, length-zeros}
use hiero_sdk_go.Abi.Sizes.{tails-items}
use hiero_sdk_go.Abi.Spec.{
  AllFit, none_left, one_more, uint_fits, slice_fits, encoding, item_parts, heads, heads_size,
  assemble, Parts,
}
use hiero_sdk_go.Contract.{ContractFunctionParameters, append_argument, write_at, overwrite}
use hiero_sdk_go.Contract.Layout.{zeros_add, write_at-middle, word_uint64}
use hiero_sdk_go.Contract.Params.Arrays.{
  put_items, make_array, add_int32_array, add_uint64_array, int32_bytes,
}
use hiero_sdk_go.Contract.Selector.Others

length-overwrite : (xs bs : List ℕ) → length (overwrite xs bs) ≡ length xs
length-overwrite [] bs = refl
length-overwrite (x ∷ xs) [] = refl
length-overwrite (x ∷ xs) (b ∷ bs) = ap suc (length-overwrite xs bs)

split_length : (i : ℕ) (xs : List ℕ) → length (take i xs) + length (drop i xs) ≡ length xs
split_length zero xs = omega arith
split_length (suc i) [] = refl
split_length (suc i) (x ∷ xs) = omega (arith, split_length i xs)

length-write_at :
    (buffer : List ℕ) (i : ℕ) (bs : List ℕ) → length (write_at buffer i bs) ≡ length buffer
unfolding write_at
length-write_at buffer i bs = omega (
  arith,
  length-append (take i buffer) (overwrite (drop i buffer) bs),
  length-overwrite (drop i buffer) bs,
  split_length i buffer,
)

-- A buffer with less than a word for each item that is left.
put_items_short :
    (b : List ℕ) (bs : List (List ℕ)) (i : ℕ) (result : List ℕ)
    → length result < (i + length (b ∷ bs)) * 32 + 32
    → put_items (b ∷ bs) i result ≡ panicked
unfolding put_items
put_items_short b [] i result h =
    let past : ltb (length result) (i * 32 + 64) ≡ true = ground arith in rw past refl
put_items_short b (b' ∷ bs) i result h = elim (Bool-cases (ltb (length result) (i * 32 + 64))) [
  | inl past ↦ rw past refl
  | inr inside ↦
      let next : List ℕ = write_at result (i * 32 + 64 - length b) b in
      rw inside (
        put_items_short b' bs (suc i) next
          (omega (arith, length-write_at result (i * 32 + 64 - length b) b)))
]

length-map {ℓ κ} :
    {A : Type ℓ} {B : Type κ} (f : A → B) (xs : List A) → length (map f xs) ≡ length xs
length-map f [] = refl
length-map f (x ∷ xs) = ap suc (length-map f xs)

-- `AddInt32Array` panics on every array that is not empty.
pub add_int32_array-panicked :
    (z : ℤ) (zs : List ℤ) (c : ContractFunctionParameters) → add_int32_array (z ∷ zs) c ≡ panicked
unfolding add_int32_array make_array
add_int32_array-panicked z zs c =
    let n : ℕ = length zs in
    let first : List ℕ = low_bytes 8 (length (map int32_bytes (z ∷ zs))) [] in
    let short : length (write_at (zeros (suc n + 32)) 24 first)
        < (0 + length (map int32_bytes (z ∷ zs))) * 32 + 32 =
      omega (
        arith,
        length-write_at (zeros (suc n + 32)) 24 first,
        length-zeros (suc n + 32),
        length-map int32_bytes zs,
      ) in
    rw
      (put_items_short (int32_bytes z) (map int32_bytes zs) 0
        (write_at (zeros (suc n + 32)) 24 first) short)
      refl

-- The items, each at the end of its word.
aligned : List (List ℕ) → List ℕ
aligned [] = []
aligned (b ∷ bs) = (zeros (32 - length b) ++ b) ++ aligned bs

put_items_lem :
    (bs : List (List ℕ)) (i : ℕ) (A : List ℕ)
    → All (λ b. length b ≤ 32) bs
    → length A ≡ i * 32 + 32
    → put_items bs i (A ++ zeros (32 * length bs)) ≡ ok (A ++ aligned bs)
unfolding put_items aligned
put_items_lem [] i A w h = refl
put_items_lem (b ∷ bs) i A w h =
    let k : ℕ = length bs in
    let z : List ℕ = zeros (32 - length b) in
    let enough : ltb (length (A ++ zeros (32 * suc k))) (i * 32 + 64) ≡ false =
      ground (arith, length-append A (zeros (32 * suc k)), length-zeros (32 * suc k)) in
    let opened : zeros (32 * suc k) ≡ z ++ (zeros (length b) ++ zeros (32 * k)) =
      ap (λ (m : ℕ). zeros m)
        (let e : 32 * suc k ≡ (32 - length b) + (length b + 32 * k) = omega (arith, w.0) in e)
      ∙ zeros_add (32 - length b) (length b + 32 * k)
      ∙ ap (λ l. z ++ l) (zeros_add (length b) (32 * k)) in
    let written : write_at (A ++ zeros (32 * suc k)) (i * 32 + 64 - length b) b
        ≡ (A ++ (z ++ b)) ++ zeros (32 * k) =
      ap (λ l. write_at (A ++ l) (i * 32 + 64 - length b) b) opened
      ∙ ap (λ l. write_at l (i * 32 + 64 - length b) b)
          (sym (append_assoc A z (zeros (length b) ++ zeros (32 * k))))
      ∙ write_at-middle (A ++ z) (zeros (length b)) (zeros (32 * k)) b (i * 32 + 64 - length b)
          (omega (arith, length-append A z, length-zeros (32 - length b), w.0))
          (length-zeros (length b))
      ∙ reassociate A z b (zeros (32 * k)) in
    rw (enough, written)
      (put_items_lem bs (suc i) (A ++ (z ++ b)) w.1 (
          omega
            (arith, length-append A (z ++ b), length-append z b, length-zeros (32 - length b), w.0))
        ∙ ap ok (append_assoc A (z ++ b) (aligned bs)))
  where
    reassociate : (A z b r : List ℕ) → (A ++ z) ++ (b ++ r) ≡ (A ++ (z ++ b)) ++ r
    reassociate A z b r = simp append_assoc

-- An array whose buffer has a word for each item: the number of items, and the items.
make_array_lem :
    (bs : List (List ℕ))
    → All (λ b. length b ≤ 32) bs
    → length bs < 2 ^ 64
    → make_array (length bs * 32 + 32) bs ≡ ok (word (length bs) ++ aligned bs)
unfolding make_array
make_array_lem bs w h =
    let n : ℕ = length bs in
    let low : List ℕ = low_bytes 8 n [] in
    let opened : zeros (n * 32 + 32) ≡ zeros 24 ++ (zeros 8 ++ zeros (32 * n)) =
      ap (λ (m : ℕ). zeros m) (let e : n * 32 + 32 ≡ 24 + (8 + 32 * n) = omega arith in e)
      ∙ zeros_add 24 (8 + 32 * n)
      ∙ ap (λ l. zeros 24 ++ l) (zeros_add 8 (32 * n)) in
    let start : write_at (zeros (n * 32 + 32)) 24 low ≡ word n ++ zeros (32 * n) =
      ap (λ l. write_at l 24 low) opened
      ∙ write_at-middle (zeros 24) (zeros 8) (zeros (32 * n)) low 24 refl refl
      ∙ sym (append_assoc (zeros 24) low (zeros (32 * n)))
      ∙ ap (λ l. l ++ zeros (32 * n)) (word_uint64 n h) in
    rw start (put_items_lem bs 0 (word n) w (length-word n))

uint64_bytes : ℕ → List ℕ
uint64_bytes n = low_bytes 8 n []

-- The Go slice of unsigned integers.
abbrev pub uint64_values : List ℕ → Values
uint64_values [] = no_values
uint64_values (n ∷ ns) = value (uint 64 n) (uint64_values ns)

pub uint64_fit : (ns : List ℕ) → All (λ n. n < 2 ^ 64) ns → AllFit (uint_type 64) (uint64_values ns)
unfolding is_native
uint64_fit [] h = none_left (uint_type 64)
uint64_fit (n ∷ ns) h =
    one_more (uint_type 64) (uint 64 n) (uint64_values ns) (uint_fits 64 n refl h.0)
      (uint64_fit ns h.1)

aligned-uint64 :
    (ns : List ℕ) (h : All (λ n. n < 2 ^ 64) ns) (offset : ℕ)
    → aligned (map (λ n. low_bytes 8 n []) ns) ≡ heads offset (item_parts (uint64_fit ns h))
unfolding aligned heads uint64_fit encoding is_dynamic_type
aligned-uint64 [] h offset = refl
aligned-uint64 (n ∷ ns) h offset =
    ap (λ l. l ++ aligned (map (λ m. low_bytes 8 m []) ns)) (word_uint64 n h.0)
    ∙ ap (λ l. word n ++ l) (aligned-uint64 ns h.1 offset)

short_items : (ns : List ℕ) → All (λ b. length b ≤ 32) (map (λ n. low_bytes 8 n []) ns)
short_items [] = tt
short_items (n ∷ ns) = (omega arith, short_items ns)

values_length-uint64 : (ns : List ℕ) → values_length (uint64_values ns) ≡ length ns
values_length-uint64 [] = refl
values_length-uint64 (n ∷ ns) = ap suc (values_length-uint64 ns)

-- `AddUint64Array` appends the encoding that the contract ABI gives `uint64[]`, as a dynamic argument.
pub add_uint64_array-encoding :
    (ns : List ℕ) (c : ContractFunctionParameters) (h : All (λ n. n < 2 ^ 64) ns)
    → length ns < 2 ^ 64
    → add_uint64_array ns c
      ≡ ok (
          append_argument Others.add_uint64_array
            (encoding (slice_fits (uint_type 64) (uint64_values ns) (uint64_fit ns h)))
            true
            c)
unfolding add_uint64_array encoding assemble is_dynamic_type
add_uint64_array-encoding ns c h k =
    let items : List (List ℕ) = map (λ n. low_bytes 8 n []) ns in
    let count : length items ≡ length ns = length-map (λ n. low_bytes 8 n []) ns in
    let ps : Parts = item_parts (uint64_fit ns h) in
    let array : make_array (length ns * 32 + 32) items ≡ ok (word (length ns) ++ aligned items) =
      rw count at (make_array_lem items (short_items ns) (omega arith)) in
    rw
      (
        array,
        aligned-uint64 ns h (heads_size ps),
        values_length-uint64 ns,
        tails-items (uint64_fit ns h) refl,
        append-nil,
      )
      refl
