-- ===== src/Rlp/Lengths.antt =====
-- sdk/rlp.go: the length prefixes, written by `encodeLength` and read back by the decoder's loops.
use hiero_sdk_go.Base.{
  ℕ, zero, suc, ◌+◌, ◌*◌, ◌/◌, ◌%◌, ◌^◌, ◌≤◌, ◌<◌, ◌≡◌, refl, ap, ◌∙◌, inl, inr, some, List, [],
  ◌∷◌, ◌++◌, arith, ◌==◌, Bool-cases, length, length-append,
}
use hiero_sdk_go.Base.Cursor.{IsAt, IsAt-head, IsAt-next, IsAt-take}
use hiero_sdk_go.Rlp.{encode_binary_loop, encode_binary, ok, int_add, slice, read_length}

-- The number that the decoder's loop makes of bytes, on from `acc`.
number_of : ℕ → List ℕ → ℕ
number_of acc [] = acc
number_of acc (b ∷ bs) = number_of ((acc * 256 + b) % 2 ^ 64) bs

-- The loop reads as many bytes as it is told, and stops behind them.
read_length-number_of :
    (ds : List ℕ) (bytes s : List ℕ) (acc i : ℕ)
    → IsAt bytes i (ds ++ s)
    → read_length (length ds) bytes acc i ≡ ok (number_of acc ds, i + length ds)
unfolding read_length number_of
read_length-number_of [] bytes s acc i p = ground arith
read_length-number_of (d ∷ ds) bytes s acc i p = ground (
  arith,
  IsAt-head p,
  read_length-number_of ds bytes s ((acc * 256 + d) % 2 ^ 64) (i + 1) (IsAt-next p),
)

-- Prepending the bytes of `num` to `bytes` and reading all is reading `bytes` on from `num`.
number_of-encode_binary_loop :
    (f num : ℕ) (bytes : List ℕ)
    → num < 256 ^ f
    → num < 2 ^ 64
    → number_of 0 (encode_binary_loop f num bytes) ≡ number_of num bytes
unfolding encode_binary_loop number_of
number_of-encode_binary_loop zero num bytes h k = let e : num ≡ 0 = omega arith in rw e
number_of-encode_binary_loop (suc f) num bytes h k = elim (Bool-cases (num == 0)) [
  | inl z ↦ rw z (let e : num ≡ 0 = ground arith in rw e)
  | inr nz ↦ rw nz (
      number_of-encode_binary_loop f (num / 256) ((num % 256) ∷ bytes) (omega arith) (omega arith)
      ∙ ap (λ (n : ℕ). number_of n bytes) (omega arith))
]

length-encode_binary_loop :
    (f num : ℕ) (bytes : List ℕ)
    → (length bytes ≤ length (encode_binary_loop f num bytes))
      × (length (encode_binary_loop f num bytes) ≤ f + length bytes)
unfolding encode_binary_loop
length-encode_binary_loop zero num bytes = omega arith
length-encode_binary_loop (suc f) num bytes =
    ground (arith, length-encode_binary_loop f (num / 256) ((num % 256) ∷ bytes))

-- The binary form of a positive uint64 has one to eight bytes.
pub length-encode_binary :
    (num : ℕ) → 0 < num → (1 ≤ length (encode_binary num)) × (length (encode_binary num) ≤ 8)
unfolding encode_binary encode_binary_loop
length-encode_binary num h =
    ground (arith, length-encode_binary_loop 7 (num / 256) ((num % 256) ∷ []))

-- Reading back the binary form of a uint64 gives the number.
pub read_length-encode_binary :
    (num : ℕ) (bytes s : List ℕ) (i : ℕ)
    → num < 2 ^ 64
    → IsAt bytes i (encode_binary num ++ s)
    → read_length (length (encode_binary num)) bytes 0 i ≡ ok (num, i + length (encode_binary num))
unfolding encode_binary number_of
read_length-encode_binary num bytes s i h p =
    read_length-number_of (encode_binary num) bytes s 0 i p
    ∙ ap (λ (n : ℕ). ok (n, i + length (encode_binary num)))
        (number_of-encode_binary_loop 8 num [] (omega arith) h ∙ refl)

-- Below the largest `int` a sum of indices does not wrap.
pub int_add_small : (a b : ℕ) → a + b < 2 ^ 63 → int_add a b ≡ some (a + b)
unfolding int_add
int_add_small a b h = ground arith

-- A slice of bytes that are there.
pub slice-IsAt :
    (bytes v s : List ℕ) (i : ℕ)
    → IsAt bytes i (v ++ s)
    → length bytes < 2 ^ 63
    → slice bytes i (length v) ≡ ok v
unfolding slice
slice-IsAt bytes v s i p h =
    rw (int_add_small i (length v) (omega (arith, p.ends, length-append v s)))
      (ground (arith, p.ends, length-append v s, IsAt-take v s p))
