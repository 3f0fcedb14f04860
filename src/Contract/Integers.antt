-- ===== src/Contract/Integers.antt =====
-- sdk/contract_function_parameters.go: the words that the integer methods write.
use hiero_sdk_go.Base.{
  ℕ, zero, suc, ◌+◌, ◌-◌, ◌*◌, ◌/◌, ◌%◌, ◌^◌, ◌≤◌, ◌<◌, ◌≡◌, ◌≢◌, refl, sym, ap, ◌∙◌, true, false,
  inl, inr, Bool-cases, List, [], ◌∷◌, ◌++◌, arith, leb, ltb, ◌==◌,
}
use hiero_sdk_go.Base.Int.{ℤ, pos, negsuc}
use hiero_sdk_go.Abi.Spec.{InRange}
use hiero_sdk_go.Abi.Words.{word, zeros, low_bytes, low_bytes_zero, u256, and_mask, big_bytes}
use hiero_sdk_go.Contract.{
  new_int_argument, new_argument, put_last, to_unsigned, ones, to_256_bit_bytes, to_padded_bytes,
}

-- A number without its `k` low bytes.
abbrev quot : ℕ → ℕ → ℕ
quot zero n = n
quot (suc k) n = quot k (n / 256)

-- `c` times 256 to the `k`.
abbrev shift : ℕ → ℕ → ℕ
shift zero c = c
shift (suc k) c = 256 * shift k c

-- The number whose `j` bytes are ones.
abbrev ones_value : ℕ → ℕ
ones_value zero = 0
ones_value (suc j) = 256 * ones_value j + 255

ones_shift : (j : ℕ) (acc : List ℕ) → ones j ++ (0xFF ∷ acc) ≡ 0xFF ∷ (ones j ++ acc)
ones_shift zero acc = refl
ones_shift (suc j) acc = ap (λ l. 0xFF ∷ l) (ones_shift j acc)

low_bytes-ones : (j : ℕ) (acc : List ℕ) → low_bytes j (ones_value j) acc ≡ ones j ++ acc
low_bytes-ones zero acc = refl
low_bytes-ones (suc j) acc =
    let q : (256 * ones_value j + 255) / 256 ≡ ones_value j = omega arith in
    let r : (256 * ones_value j + 255) % 256 ≡ 255 = omega arith in
    rw (q, r) (low_bytes-ones j (255 ∷ acc) ∙ ones_shift j acc)

low_bytes-shift :
    (k a b c : ℕ) (acc : List ℕ) → a ≡ b + shift k c → low_bytes k a acc ≡ low_bytes k b acc
low_bytes-shift zero a b c acc h = refl
low_bytes-shift (suc k) a b c acc h =
    ap (λ (d : ℕ). low_bytes k (a / 256) (d ∷ acc)) (omega arith)
    ∙ low_bytes-shift k (a / 256) (b / 256) c ((b % 256) ∷ acc) (omega arith)

-- A word from its low bytes, and what is above them: nothing, or ones.
above_zero :
    (k j a b : ℕ)
    → quot k a ≡ 0
    → b ≡ a
    → zeros j ++ low_bytes k b [] ≡ low_bytes j (quot k a) (low_bytes k a [])
above_zero k j a b h e = rw (h, e) (sym (low_bytes_zero j (low_bytes k a [])))

above_ones :
    (k j a b : ℕ)
    → quot k a ≡ ones_value j
    → a ≡ b + shift k (ones_value j)
    → ones j ++ low_bytes k b [] ≡ low_bytes j (quot k a) (low_bytes k a [])
above_ones k j a b h e =
    rw (h, low_bytes-shift k a b (ones_value j) [] e) (sym (low_bytes-ones j (low_bytes k b [])))

-- The argument of a signed method that writes `k` bytes.
abbrev pub int_argument : ℕ → ℤ → List ℕ
int_argument k z = put_last (new_int_argument z) (low_bytes k (to_unsigned (8 * k) z) [])

pub int_argument_1 : (z : ℤ) → z ≢ pos 0 → InRange 8 z → int_argument 1 z ≡ word (u256 z)
unfolding put_last new_int_argument word u256
int_argument_1 (pos zero) h r = absurd (h refl)
int_argument_1 (pos (suc n)) h r =
    let small : ltb (suc n) (2 ^ 256) ≡ true = ground arith in
    rw small (above_zero 1 31 (suc n) (suc n % 2 ^ 8) (omega arith) (omega arith))
int_argument_1 (negsuc n) h r =
    above_ones 1 31 (2 ^ 256 - 1 - n % 2 ^ 256) (2 ^ 8 - 1 - n % 2 ^ 8) (omega arith) (omega arith)

pub int_argument_2 : (z : ℤ) → z ≢ pos 0 → InRange 16 z → int_argument 2 z ≡ word (u256 z)
unfolding put_last new_int_argument word u256
int_argument_2 (pos zero) h r = absurd (h refl)
int_argument_2 (pos (suc n)) h r =
    let small : ltb (suc n) (2 ^ 256) ≡ true = ground arith in
    rw small (above_zero 2 30 (suc n) (suc n % 2 ^ 16) (omega arith) (omega arith))
int_argument_2 (negsuc n) h r =
    above_ones 2 30 (2 ^ 256 - 1 - n % 2 ^ 256) (2 ^ 16 - 1 - n % 2 ^ 16) (omega arith)
      (omega arith)

pub int_argument_4 : (z : ℤ) → z ≢ pos 0 → InRange 32 z → int_argument 4 z ≡ word (u256 z)
unfolding put_last new_int_argument word u256
int_argument_4 (pos zero) h r = absurd (h refl)
int_argument_4 (pos (suc n)) h r =
    let small : ltb (suc n) (2 ^ 256) ≡ true = ground arith in
    rw small (above_zero 4 28 (suc n) (suc n % 2 ^ 32) (omega arith) (omega arith))
int_argument_4 (negsuc n) h r =
    above_ones 4 28 (2 ^ 256 - 1 - n % 2 ^ 256) (2 ^ 32 - 1 - n % 2 ^ 32) (omega arith)
      (omega arith)

pub int_argument_8 : (z : ℤ) → z ≢ pos 0 → InRange 64 z → int_argument 8 z ≡ word (u256 z)
unfolding put_last new_int_argument word u256
int_argument_8 (pos zero) h r = absurd (h refl)
int_argument_8 (pos (suc n)) h r =
    let small : ltb (suc n) (2 ^ 256) ≡ true = ground arith in
    rw small (above_zero 8 24 (suc n) (suc n % 2 ^ 64) (omega arith) (omega arith))
int_argument_8 (negsuc n) h r =
    above_ones 8 24 (2 ^ 256 - 1 - n % 2 ^ 256) (2 ^ 64 - 1 - n % 2 ^ 64) (omega arith)
      (omega arith)

-- The argument of an unsigned method that writes `k` bytes.
abbrev pub uint_argument : ℕ → ℕ → List ℕ
uint_argument k n = put_last new_argument (low_bytes k n [])

pub uint_argument_1 : (n : ℕ) → n < 2 ^ 8 → uint_argument 1 n ≡ word n
unfolding put_last word
uint_argument_1 n h = above_zero 1 31 n n (omega arith) refl

pub uint_argument_2 : (n : ℕ) → n < 2 ^ 16 → uint_argument 2 n ≡ word n
unfolding put_last word
uint_argument_2 n h = above_zero 2 30 n n (omega arith) refl

pub uint_argument_4 : (n : ℕ) → n < 2 ^ 32 → uint_argument 4 n ≡ word n
unfolding put_last word
uint_argument_4 n h = above_zero 4 28 n n (omega arith) refl

pub uint_argument_8 : (n : ℕ) → n < 2 ^ 64 → uint_argument 8 n ≡ word n
unfolding put_last word
uint_argument_8 n h = above_zero 8 24 n n (omega arith) refl

pow_pos : (k : ℕ) → 0 < 256 ^ k
pow_pos zero = omega arith
pow_pos (suc k) = omega (arith, pow_pos k)

big_bytes_full :
    (k n : ℕ) (acc : List ℕ) → 256 ^ k ≤ n → big_bytes (suc k) n acc ≡ low_bytes (suc k) n acc
unfolding big_bytes
big_bytes_full zero n acc h = let e : (n == 0) ≡ false = ground arith in rw e refl
big_bytes_full (suc k) n acc h =
    let e : (n == 0) ≡ false = ground (arith, pow_pos k) in
    rw e (big_bytes_full k (n / 256) ((n % 256) ∷ acc) (omega arith))

masked : (z : ℤ) → and_mask z ≡ u256 z
unfolding u256 and_mask
masked (pos n) = ground arith
masked (negsuc n) = refl

to_padded_bytes-word : (n : ℕ) → to_padded_bytes n ≡ word n
unfolding to_padded_bytes word
to_padded_bytes-word n = elim (Bool-cases (leb (2 ^ 255) n)) [
  | inl e ↦ let large : 256 ^ 31 ≤ n = ground arith in rw e (big_bytes_full 31 n [] large)
  | inr e ↦ rw e refl
]

-- `To256BitBytes` writes the word of the number in two's complement, on both of its branches.
pub to_256_bit_bytes_lem : (z : ℤ) → to_256_bit_bytes z ≡ word (u256 z)
unfolding to_256_bit_bytes
to_256_bit_bytes_lem z = to_padded_bytes-word (and_mask z) ∙ ap word (masked z)
