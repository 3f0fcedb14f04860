-- ===== src/Abi/Reads.antt =====
-- sdk/abi_decode.go: what the decoder reads from a word, and from one entry of a loop.
use hiero_sdk_go.Base.{
  ℕ, ◌+◌, ◌-◌, ◌%◌, ◌^◌, ◌≤◌, ◌<◌, ◌≡◌, refl, ap, inl, inr, Bool, true, false, List, ◌++◌, arith,
  ltb, leb, ◌==◌, if◌then◌else◌, length, take, drop, length-append, take-append, drop-append,
  append_assoc,
}
use hiero_sdk_go.Base.Int.{ℤ, pos, negsuc}
use hiero_sdk_go.Abi.{Value, bool, uint, int, big_int, array, Result, ok, is_native}
use hiero_sdk_go.Abi.Words.{
  word, zeros, length-word, set_bytes-word, last_1, last_2, last_4, last_8, u256, u256-lt,
}
use hiero_sdk_go.Abi.Decode.{
  bytes_values, decode_bool, read_uint, read_int, read_addr, read_fixed_bytes, read_function_type,
  read_offset, read_length, read_bytes, signed, signed_256, all_zeros, decode_entry,
}
use hiero_sdk_go.Abi.Spec.{InRange, Parts, part, heads, tails}
use hiero_sdk_go.Abi.Encoding.{native_cases}

pub take_prefix : (n : ℕ) (a b : List ℕ) → length a ≡ n → take n (a ++ b) ≡ a
take_prefix n a b h = rw (← h) (take-append a b)

pub drop_prefix : (n : ℕ) (a b : List ℕ) → length a ≡ n → drop n (a ++ b) ≡ b
drop_prefix n a b h = rw (← h) (drop-append a b)

-- The check that the input holds a word.
pub holds_word : (a b : List ℕ) → 32 ≤ length a → ltb (length (a ++ b)) 32 ≡ false
holds_word a b h = ground (arith, length-append a b)

pub decode_bool-word : (b : Bool) → decode_bool (word (if b then 1 else 0)) ≡ ok (bool b)
unfolding decode_bool word
decode_bool-word true = refl
decode_bool-word false = refl

pub read_uint-word : (s n : ℕ) → is_native s ≡ true → n < 2 ^ s → read_uint s (word n) ≡ uint s n
unfolding read_uint
read_uint-word s n w h = elim (native_cases s w) [
  | inl e ↦ rw (e, last_1) (ap (uint 8) (let k : n < 2 ^ 8 = rw e at h in omega arith))
  | inr (inl e) ↦ rw (e, last_2) (ap (uint 16) (let k : n < 2 ^ 16 = rw e at h in omega arith))
  | inr (inr (inl e)) ↦
      rw (e, last_4) (ap (uint 32) (let k : n < 2 ^ 32 = rw e at h in omega arith))
  | inr (inr (inr e)) ↦
      rw (e, last_8) (ap (uint 64) (let k : n < 2 ^ 64 = rw e at h in omega arith))
]

-- The tests of a width that has no Go type of its own.
pub not_native :
    (s : ℕ)
    → is_native s ≡ false
    → ((s == 8) ≡ false) × ((s == 16) ≡ false) × ((s == 32) ≡ false) × ((s == 64) ≡ false)
unfolding is_native
not_native s h = ground arith

pub read_uint-big :
    (s n : ℕ) → is_native s ≡ false → n < 2 ^ 256 → read_uint s (word n) ≡ big_int (pos n)
unfolding read_uint
read_uint-big s n w h =
    let (a, b, c, d) = not_native s w in rw (a, b, c, d, set_bytes-word n h) refl

signed_8 : (z : ℤ) → InRange 8 z → signed 8 (u256 z % 2 ^ 8) ≡ z
unfolding u256
signed_8 (pos n) h = ground arith
signed_8 (negsuc n) h = ground arith

signed_16 : (z : ℤ) → InRange 16 z → signed 16 (u256 z % 2 ^ 16) ≡ z
unfolding u256
signed_16 (pos n) h = ground arith
signed_16 (negsuc n) h = ground arith

signed_32 : (z : ℤ) → InRange 32 z → signed 32 (u256 z % 2 ^ 32) ≡ z
unfolding u256
signed_32 (pos n) h = ground arith
signed_32 (negsuc n) h = ground arith

signed_64 : (z : ℤ) → InRange 64 z → signed 64 (u256 z % 2 ^ 64) ≡ z
unfolding u256
signed_64 (pos n) h = ground arith
signed_64 (negsuc n) h = ground arith

signed_256_lem : (z : ℤ) → InRange 256 z → signed_256 (u256 z) ≡ z
unfolding u256
signed_256_lem (pos n) h = ground arith
signed_256_lem (negsuc n) h = ground arith

at_width : (s k : ℕ) (z : ℤ) → s ≡ k → InRange s z → InRange k z
at_width s k z e h = rw e at h

pub read_int-word :
    (s : ℕ) (z : ℤ) → is_native s ≡ true → InRange s z → read_int s (word (u256 z)) ≡ int s z
unfolding read_int
read_int-word s z w h = elim (native_cases s w) [
  | inl e ↦ rw (e, last_1) (ap (int 8) (signed_8 z (at_width s 8 z e h)))
  | inr (inl e) ↦ rw (e, last_2) (ap (int 16) (signed_16 z (at_width s 16 z e h)))
  | inr (inr (inl e)) ↦ rw (e, last_4) (ap (int 32) (signed_32 z (at_width s 32 z e h)))
  | inr (inr (inr e)) ↦ rw (e, last_8) (ap (int 64) (signed_64 z (at_width s 64 z e h)))
]

pub read_int-big :
    (s : ℕ) (z : ℤ) → is_native s ≡ false → InRange 256 z → read_int s (word (u256 z)) ≡ big_int z
unfolding read_int
read_int-big s z w h =
    let (a, b, c, d) = not_native s w in
    rw (a, b, c, d, set_bytes-word (u256 z) (u256-lt z)) (ap big_int (signed_256_lem z h))

pub read_addr-zeros :
    (b : List ℕ) → length b ≡ 20 → read_addr (zeros 12 ++ b) ≡ ok (array (bytes_values b))
unfolding read_addr
read_addr-zeros b h = let whole : (length (zeros 12 ++ b) == 32) ≡ true = ground arith in rw whole

pub read_fixed_bytes-padded :
    (s : ℕ) (b behind : List ℕ)
    → length b ≡ s
    → read_fixed_bytes s (b ++ zeros (32 - s)) behind ≡ ok (array (bytes_values b))
unfolding read_fixed_bytes
read_fixed_bytes-padded s b behind h =
    let inside : leb s (length (b ++ zeros (32 - s))) ≡ true =
      ground (arith, length-append b (zeros (32 - s))) in
    rw (inside, take_prefix s b (zeros (32 - s)) h) refl

pub read_function_type-padded :
    (b : List ℕ) → length b ≡ 24 → read_function_type (b ++ zeros 8) ≡ ok (array (bytes_values b))
unfolding read_function_type all_zeros
read_function_type-padded b h = rw (drop_prefix 24 b (zeros 8) h, take_prefix 24 b (zeros 8) h) refl

pub read_length-word :
    (n : ℕ) (rest : List ℕ) → n < 2 ^ 63 → n ≤ length rest → read_length (word n ++ rest) ≡ ok n
unfolding read_length
read_length-word n rest h k =
    let small : leb (2 ^ 63) n ≡ false = ground arith in
    let inside : ltb (length (word n ++ rest) - 32) n ≡ false =
      ground (arith, length-append (word n) rest, length-word n) in
    rw (take_prefix 32 (word n) rest (length-word n), set_bytes-word n (omega arith), small, inside)
      refl

pub read_bytes-word :
    (b rest : List ℕ) → length b < 2 ^ 63 → read_bytes (word (length b) ++ (b ++ rest)) ≡ ok b
unfolding read_bytes
read_bytes-word b rest h =
    rw
      (
        read_length-word (length b) (b ++ rest) h (omega (arith, length-append b rest)),
        drop_prefix 32 (word (length b)) (b ++ rest) (length-word (length b)),
        take-append b rest,
      )
      refl

-- One entry of a loop: `dec` reads the encoding of a part wherever it stands, and a part with a tail
-- is found by its offset.
pub decode_entry-part :
    (dec : List ℕ → Result (Value × List ℕ)) (d : Bool) (b : List ℕ) (v : Value) (ps : Parts)
    (offset : ℕ) (orig more trailing : List ℕ)
    → 32 ≤ length b
    → ((rest : List ℕ)
        → (tail : List ℕ) × (dec (b ++ rest) ≡ ok (v, tail)) × (d ≡ false → tail ≡ rest))
    → drop offset orig ≡ tails (part d b ps) ++ more
    → offset < 2 ^ 63
    → offset ≤ length orig
    → decode_entry dec d orig (heads offset (part d b ps) ++ trailing)
      ≡ ok (v, heads (if d then offset + length b else offset) ps ++ trailing)
unfolding decode_entry read_offset heads tails
decode_entry-part dec true b v ps offset orig more trailing long reads at_offset small inside =
    let next : List ℕ = heads (offset + length b) ps ++ trailing in
    let near : leb (2 ^ 63) offset ≡ false = ground arith in
    let within : ltb (length orig) offset ≡ false = ground arith in
    let (tail, e, _) = reads (tails ps ++ more) in
    rw
      (
        append_assoc (word offset) (heads (offset + length b) ps) trailing,
        holds_word (word offset) next (omega (arith, length-word offset)),
        take_prefix 32 (word offset) next (length-word offset),
        set_bytes-word offset (omega arith),
        near,
        within,
        at_offset,
        append_assoc b (tails ps) more,
        e,
        drop_prefix 32 (word offset) next (length-word offset),
      )
      refl
decode_entry-part dec false b v ps offset orig more trailing long reads at_offset small inside =
    let next : List ℕ = heads offset ps ++ trailing in
    let (tail, e, s) = reads next in
    rw (append_assoc b (heads offset ps) trailing, holds_word b next long, e, s refl) refl
