-- ===== src/Abi/Hex.antt =====
-- sdk/abi_encode.go, sdk/abi_decode.go: hexadecimal text and numbers in text, as the codec reads them.
use hiero_sdk_go.Base.{
  ℕ, zero, suc, ◌+◌, ◌-◌, ◌*◌, Bool, false, ◌&&◌, Option, none, some, List, [], ◌∷◌, leb, ltb, ◌==◌,
  if◌then◌else◌, bind, length, drop,
}
use hiero_sdk_go.Base.Int.{ℤ, pos, negsuc}
use hiero_sdk_go.Base.Text.{Text}
use mathlib.Core.List.{reverse}

-- A digit's value, in bases up to 16.
unfoldable pub hex_digit : ℕ → Option ℕ
hex_digit c =
    if leb b'0' c && leb c b'9'
    then some (c - b'0')
    else if leb b'a' c && leb c b'f'
    then some (c - b'a' + 10)
    else if leb b'A' c && leb c b'F'
    then some (c - b'A' + 10)
    else none

-- `hex.DecodeString`
unfoldable pub hex_decode : Text → Option (List ℕ)
unfolding hex_digit
hex_decode [] = some []
hex_decode (c ∷ []) = none
hex_decode (c ∷ d ∷ s) =
    bind (hex_digit c)
      λ h. bind (hex_digit d) λ l. bind (hex_decode s) λ bs. some ((h * 16 + l) ∷ bs)

-- `strings.HasPrefix(s, "0x")`
abbrev pub has_0x : Text → Bool
has_0x (a ∷ b ∷ s) = a == b'0' && b == b'x'
has_0x _ = false

-- `decodeHex`
unfoldable pub decode_hex : Text → Option (List ℕ)
unfolding hex_decode
decode_hex s = hex_decode (if has_0x s then drop 2 s else s)

-- The quotes that a text starts with.
abbrev pub trim_left : Text → Text
trim_left [] = []
trim_left (c ∷ s) = if c == 0x22 then trim_left s else c ∷ s

-- `strings.Trim(s, "\"")`
unfoldable pub trim : Text → Text
trim s = reverse (trim_left (reverse (trim_left s)))

-- `unmarshalTextByte`, on a text that has been trimmed.
unfoldable pub unmarshal_trimmed : Text → ℕ → Option (List ℕ)
unfolding hex_decode
unmarshal_trimmed s size =
    if has_0x s
    then (bind (hex_decode (drop 2 s)) λ b. if length b == size then some b else none)
    else none

unfoldable pub unmarshal_text_byte : Text → ℕ → Option (List ℕ)
unfolding unmarshal_trimmed trim
unmarshal_text_byte src size = unmarshal_trimmed (trim src) size

-- The digits of a number in a base, on from `acc`.
unfoldable pub read_digits : ℕ → ℕ → Text → Option ℕ
unfolding hex_digit
read_digits base acc [] = some acc
read_digits base acc (c ∷ s) =
    bind (hex_digit c)
      λ d. let rest = read_digits base (acc * base + d) s in if ltb d base then rest else none

abbrev pub negated : ℕ → ℤ
negated zero = pos 0
negated (suc n) = negsuc n

unfoldable pub unsigned : ℕ → Text → Option ℕ
unfolding read_digits
unsigned base [] = none
unsigned base (c ∷ s) = read_digits base 0 (c ∷ s)

-- `big.Int.SetString` in base 10 or 16: a sign, or none, and one digit at least.
unfoldable pub set_string : ℕ → Text → Option ℤ
unfolding unsigned
set_string base [] = none
set_string base (c ∷ s) =
    if c == b'-'
    then (bind (unsigned base s) λ n. some (negated n))
    else if c == b'+'
    then (bind (unsigned base s) λ n. some (pos n))
    else bind (unsigned base (c ∷ s)) λ n. some (pos n)
