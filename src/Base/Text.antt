-- ===== src/Base/Text.antt =====
-- Go strings as lists of bytes: literals, equality, and unsigned decimal numbers.
use Prim.Native.Char.{code}
use Prim.Native.String.{String}
use hiero_sdk_go.Base.{
  ℕ, zero, suc, ◌+◌, ◌-◌, ◌*◌, ◌/◌, ◌%◌, ◌^◌, ◌≤◌, ◌<◌, ◌≡◌, refl, ap, ◌∙◌, ◌↔◌, inl, inr, Bool,
  true, false, ◌&&◌, Option, none, some, List, [], ◌∷◌, arith, ltb, leb, ◌==◌, if◌then◌else◌,
  Bool-cases, length, All,
}

abbrev pub Text : Type 0
Text = List ℕ

-- The bytes of a literal of ASCII characters.
abbrev pub codes : String → Text
codes String.[] = []
codes (String.◌∷◌ c s) = code c ∷ codes s

unfoldable pub text_eq : Text → Text → Bool
text_eq [] [] = true
text_eq [] (b ∷ t) = false
text_eq (a ∷ s) [] = false
text_eq (a ∷ s) (b ∷ t) = a == b && text_eq s t

pub text_eq→eq : (a b : Text) → text_eq a b ≡ true → a ≡ b
unfolding text_eq
text_eq→eq [] [] h = refl
text_eq→eq [] (b ∷ t) h = cc
text_eq→eq (a ∷ s) [] h = cc
text_eq→eq (a ∷ s) (b ∷ t) h = ground (arith, text_eq→eq s t)

pub text_eq_refl : (a : Text) → text_eq a a ≡ true
unfolding text_eq
text_eq_refl [] = refl
text_eq_refl (a ∷ s) = ground (arith, text_eq_refl s)

pub text_eq_iff : (a b : Text) → (text_eq a b ≡ true) ↔ (a ≡ b)
text_eq_iff a b = (text_eq→eq a b, λ e. rw e (text_eq_refl b))

abbrev pub IsDigit : ℕ → Type 0
IsDigit c = (b'0' ≤ c) × (c ≤ b'9')

unfoldable pub is_digit : ℕ → Bool
is_digit c = leb b'0' c && leb c b'9'

-- `strconv.FormatUint(n, 10)`, on fuel: a uint64 has at most 20 digits.
unfoldable pub format_loop : ℕ → ℕ → Text → Text
format_loop zero n acc = acc
format_loop (suc f) n acc =
    let more = format_loop f (n / 10) ((b'0' + n % 10) ∷ acc) in
    if ltb n 10 then (b'0' + n) ∷ acc else more

unfoldable pub format_uint : ℕ → Text
unfolding format_loop
format_uint n = format_loop 20 n []

-- The number that digits spell, on from `acc`; `none` at a byte that is no digit.
unfoldable pub digits_value : ℕ → Text → Option ℕ
unfolding is_digit
digits_value acc [] = some acc
digits_value acc (c ∷ cs) =
    let rest = digits_value (acc * 10 + (c - b'0')) cs in if is_digit c then rest else none

-- `strconv.ParseUint(s, 10, bits)`: no digits, another byte or a number out of range is an error.
unfoldable pub in_range : ℕ → Option ℕ → Option ℕ
in_range limit none = none
in_range limit (some n) = if ltb n limit then some n else none

unfoldable pub parse_uint : ℕ → Text → Option ℕ
unfolding digits_value in_range
parse_uint limit [] = none
parse_uint limit (c ∷ cs) = in_range limit (digits_value 0 (c ∷ cs))

digits_value_digit :
    (acc d : ℕ) (cs : Text)
    → d < 10
    → digits_value acc ((b'0' + d) ∷ cs) ≡ digits_value (acc * 10 + d) cs
unfolding digits_value
digits_value_digit acc d cs h =
    let e : b'0' + d - b'0' ≡ d = omega arith in
    let digit : is_digit (b'0' + d) ≡ true = ground arith in
    rw digit (ap (λ (k : ℕ). digits_value (acc * 10 + k) cs) e)

digits_value-format_loop :
    (f n : ℕ) (acc : Text) → n < 10 ^ f → digits_value 0 (format_loop f n acc) ≡ digits_value n acc
unfolding format_loop
digits_value-format_loop zero n acc h = let e : n ≡ 0 = omega arith in rw e
digits_value-format_loop (suc f) n acc h = elim (Bool-cases (ltb n 10)) [
  | inl e ↦
      rw e (
        digits_value_digit 0 n acc (ground arith)
        ∙ ap (λ (k : ℕ). digits_value k acc) (omega arith))
  | inr e ↦ rw e (
      digits_value-format_loop f (n / 10) ((b'0' + n % 10) ∷ acc) (omega arith)
      ∙ digits_value_digit (n / 10) (n % 10) acc (omega arith)
      ∙ ap (λ (k : ℕ). digits_value k acc) (omega arith))
]

format_loop-digits : (f n : ℕ) (acc : Text) → All IsDigit acc → All IsDigit (format_loop f n acc)
unfolding format_loop
format_loop-digits zero n acc h = h
format_loop-digits (suc f) n acc h =
    ground (arith, format_loop-digits f (n / 10) ((b'0' + n % 10) ∷ acc) (omega arith, h))

length-format_loop : (f n : ℕ) (acc : Text) → length acc ≤ length (format_loop f n acc)
unfolding format_loop
length-format_loop zero n acc = omega arith
length-format_loop (suc f) n acc =
    ground (arith, length-format_loop f (n / 10) ((b'0' + n % 10) ∷ acc))

-- The decimal form of a number is digits, one at least.
pub All-format_uint : (n : ℕ) → All IsDigit (format_uint n)
unfolding format_uint
All-format_uint n = format_loop-digits 20 n [] tt

pub length-format_uint : (n : ℕ) → 1 ≤ length (format_uint n)
unfolding format_uint
length-format_uint n = ground (arith, length-format_loop 19 (n / 10) ((b'0' + n % 10) ∷ []))

pub digits_value-format_uint : (n : ℕ) → n < 2 ^ 64 → digits_value 0 (format_uint n) ≡ some n
unfolding format_uint digits_value
digits_value-format_uint n h = digits_value-format_loop 20 n [] (omega arith)

-- A printed uint64 is parsed back.
pub parse_uint-format_uint :
    (limit n : ℕ) → n < limit → n < 2 ^ 64 → parse_uint limit (format_uint n) ≡ some n
parse_uint-format_uint limit n h k =
    go (format_uint n) (length-format_uint n) (digits_value-format_uint n k)
  where
    go : (s : Text) → 1 ≤ length s → digits_value 0 s ≡ some n → parse_uint limit s ≡ some n
    go [] e v = absurd (omega arith)
    go (c ∷ cs) e v = unfold parse_uint in rw v (ground arith)
