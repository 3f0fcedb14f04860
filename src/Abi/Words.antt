-- ===== src/Abi/Words.antt =====
-- sdk/abi_encode.go: words of 32 bytes, and the padding of bytes. A word is compared with the low 32
-- bytes of a number, written by division.
use hiero_sdk_go.Base.{
  ℕ, zero, suc, ◌+◌, ◌-◌, ◌*◌, ◌/◌, ◌%◌, ◌^◌, ◌≤◌, ◌<◌, ◌≡◌, refl, sym, ap, ◌∙◌, inl, inr, Bool,
  true, false, Bool-cases, List, [], ◌∷◌, ◌++◌, arith, ltb, ◌==◌, if◌then◌else◌, length, drop,
  append-nil, lt→ltb,
}
use hiero_sdk_go.Base.Int.{ℤ, pos, negsuc}

-- `make([]byte, n)`
abbrev pub zeros : ℕ → List ℕ
zeros zero = []
zeros (suc n) = 0 ∷ zeros n

-- `big.Int.Bytes`: the bytes of a number from the first one that is not zero, on fuel.
unfoldable pub big_bytes : ℕ → ℕ → List ℕ → List ℕ
big_bytes zero n acc = acc
big_bytes (suc f) n acc =
    let more = big_bytes f (n / 256) ((n % 256) ∷ acc) in if n == 0 then acc else more

-- `padBytes`
unfoldable pub pad_bytes : List ℕ → ℕ → Bool → List ℕ
pad_bytes b size left =
    if length b == size
    then b
    else if ltb size (length b)
    then drop (length b - size) b
    else if left
    then zeros (size - length b) ++ b
    else b ++ zeros (size - length b)

-- `b.And(b, tt256m1)`, which reads a negative number in two's complement.
unfoldable pub and_mask : ℤ → ℕ
and_mask (pos n) = n % 2 ^ 256
and_mask (negsuc n) = 2 ^ 256 - 1 - n % 2 ^ 256

-- The number that `toU256` writes: masked where it is negative or longer than 256 bits.
unfoldable pub u256 : ℤ → ℕ
unfolding and_mask
u256 (pos n) = if ltb n (2 ^ 256) then n else and_mask (pos n)
u256 (negsuc n) = and_mask (negsuc n)

-- `toU256`
unfoldable pub to_u256 : ℤ → List ℕ
to_u256 z = pad_bytes (big_bytes 32 (u256 z) []) 32 true

-- `packNum`
unfoldable pub pack_num : ℕ → List ℕ
pack_num offset = to_u256 (pos offset)

-- `packBytesSlice` of a buffer and its length.
unfoldable pub pack_bytes_slice : List ℕ → List ℕ
pack_bytes_slice buf = pack_num (length buf) ++ pad_bytes buf ((length buf + 31) / 32 * 32) false

-- `big.Int.SetBytes`
unfoldable pub set_bytes : ℕ → List ℕ → ℕ
set_bytes acc [] = acc
set_bytes acc (b ∷ bs) = set_bytes (acc * 256 + b) bs

-- The low `k` bytes of a number, the highest first.
abbrev pub low_bytes : ℕ → ℕ → List ℕ → List ℕ
low_bytes zero n acc = acc
low_bytes (suc k) n acc = low_bytes k (n / 256) ((n % 256) ∷ acc)

unfoldable pub word : ℕ → List ℕ
word n = low_bytes 32 n []

pub length-zeros : (n : ℕ) → length (zeros n) ≡ n
length-zeros zero = refl
length-zeros (suc n) = ap suc (length-zeros n)

zeros_shift : (k : ℕ) (acc : List ℕ) → zeros k ++ (0 ∷ acc) ≡ 0 ∷ (zeros k ++ acc)
zeros_shift zero acc = refl
zeros_shift (suc k) acc = ap (λ l. 0 ∷ l) (zeros_shift k acc)

pub low_bytes_zero : (k : ℕ) (acc : List ℕ) → low_bytes k 0 acc ≡ zeros k ++ acc
low_bytes_zero zero acc = refl
low_bytes_zero (suc k) acc = low_bytes_zero k (0 ∷ acc) ∙ zeros_shift k acc

-- The zeros that bring a list of bytes to a length, and the list.
filled : ℕ → List ℕ → List ℕ
filled size b = zeros (size - length b) ++ b

filled-zeros : (k : ℕ) (acc : List ℕ) → filled (k + length acc) acc ≡ zeros k ++ acc
unfolding filled
filled-zeros k acc =
    let e : k + length acc - length acc ≡ k = omega arith in ap (λ (i : ℕ). zeros i ++ acc) e

filled-big_bytes :
    (k n : ℕ) (acc : List ℕ)
    → n < 256 ^ k
    → filled (k + length acc) (big_bytes k n acc) ≡ low_bytes k n acc
unfolding big_bytes
filled-big_bytes zero n acc h = filled-zeros zero acc
filled-big_bytes (suc k) n acc h = elim (Bool-cases (n == 0)) [
  | inl e ↦
      let z : n ≡ 0 = ground arith in
      rw e (
        filled-zeros (suc k) acc
        ∙ sym (low_bytes_zero (suc k) acc)
        ∙ ap (λ (i : ℕ). low_bytes (suc k) i acc) (sym z))
  | inr e ↦
      let below : n / 256 < 256 ^ k = omega arith in
      let shift : suc k + length acc ≡ k + suc (length acc) = omega arith in
      rw e (
        ap (λ (i : ℕ). filled i (big_bytes k (n / 256) ((n % 256) ∷ acc))) shift
        ∙ filled-big_bytes k (n / 256) ((n % 256) ∷ acc) below)
]

length-big_bytes : (k n : ℕ) (acc : List ℕ) → length (big_bytes k n acc) ≤ k + length acc
unfolding big_bytes
length-big_bytes zero n acc = omega arith
length-big_bytes (suc k) n acc = ground (arith, length-big_bytes k (n / 256) ((n % 256) ∷ acc))

-- No byte is added to a list of the length already.
no_fill : (size : ℕ) (b : List ℕ) → length b ≡ size → zeros (size - length b) ≡ []
no_fill size b e = let z : size - length b ≡ 0 = omega arith in ap (λ (i : ℕ). zeros i) z

pub pad_bytes-left :
    (b : List ℕ) (size : ℕ) → length b ≤ size → pad_bytes b size true ≡ zeros (size - length b) ++ b
unfolding pad_bytes
pad_bytes-left b size h = elim (Bool-cases (length b == size)) [
  | inl e ↦ rw (e, no_fill size b (ground arith)) refl
  | inr e ↦ let fits : ltb size (length b) ≡ false = ground arith in rw (e, fits) refl
]

pub pad_bytes-right :
    (b : List ℕ) (size : ℕ)
    → length b ≤ size
    → pad_bytes b size false ≡ b ++ zeros (size - length b)
unfolding pad_bytes
pad_bytes-right b size h = elim (Bool-cases (length b == size)) [
  | inl e ↦ rw (e, no_fill size b (ground arith), append-nil) refl
  | inr e ↦ let fits : ltb size (length b) ≡ false = ground arith in rw (e, fits) refl
]

pub u256-pos : (n : ℕ) → n < 2 ^ 256 → u256 (pos n) ≡ n
unfolding u256
u256-pos n h = rw (lt→ltb n _ h)

pub u256-lt : (z : ℤ) → u256 z < 2 ^ 256
unfolding u256
u256-lt (pos n) = ground arith
u256-lt (negsuc n) = omega arith

-- `toU256` writes the 32 low bytes of the number, a negative one in two's complement.
pub to_u256_lem : (z : ℤ) → to_u256 z ≡ word (u256 z)
unfolding to_u256 word filled
to_u256_lem z =
    pad_bytes-left (big_bytes 32 (u256 z) []) 32 (length-big_bytes 32 (u256 z) [])
    ∙ filled-big_bytes 32 (u256 z) [] (u256-lt z)

pub pack_num_lem : (n : ℕ) → n < 2 ^ 256 → pack_num n ≡ word n
unfolding pack_num
pack_num_lem n h = to_u256_lem (pos n) ∙ ap word (u256-pos n h)

pub length-word : (n : ℕ) → length (word n) ≡ 32
unfolding word
length-word n = refl

pub set_bytes-low_bytes :
    (k n : ℕ) (acc : List ℕ) → n < 256 ^ k → set_bytes 0 (low_bytes k n acc) ≡ set_bytes n acc
unfolding set_bytes
set_bytes-low_bytes zero n acc h = let e : n ≡ 0 = omega arith in rw e
set_bytes-low_bytes (suc k) n acc h =
    set_bytes-low_bytes k (n / 256) ((n % 256) ∷ acc) (omega arith)
    ∙ ap (λ (i : ℕ). set_bytes i acc) (omega arith)

pub set_bytes-word : (n : ℕ) → n < 2 ^ 256 → set_bytes 0 (word n) ≡ n
unfolding word set_bytes
set_bytes-word n h = set_bytes-low_bytes 32 n [] h

-- The last bytes of a word, as an integer of their width.
pub last_1 : (n : ℕ) → set_bytes 0 (drop 31 (word n)) ≡ n % 2 ^ 8
unfolding word set_bytes
last_1 n = omega arith

pub last_2 : (n : ℕ) → set_bytes 0 (drop 30 (word n)) ≡ n % 2 ^ 16
unfolding word set_bytes
last_2 n = omega arith

pub last_4 : (n : ℕ) → set_bytes 0 (drop 28 (word n)) ≡ n % 2 ^ 32
unfolding word set_bytes
last_4 n = omega arith

pub last_8 : (n : ℕ) → set_bytes 0 (drop 24 (word n)) ≡ n % 2 ^ 64
unfolding word set_bytes
last_8 n = omega arith
