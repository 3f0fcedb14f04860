-- ===== src/Checksum.antt =====
-- sdk/entity_id.go: the checksum of an entity's address.
pub mod Letters
mod Tests
use hiero_sdk_go.Base.{
  ℕ, zero, suc, ◌+◌, ◌-◌, ◌*◌, ◌/◌, ◌%◌, Bool, true, false, ◌&&◌, Option, none, some, List, [], ◌∷◌,
  ◌++◌, ◌^◌, not, map, leb, ◌==◌, if◌then◌else◌, length,
}
use hiero_sdk_go.Base.Text.{Text, text_eq, is_digit, parse_uint}

-- The error of a status, or none; the texts are the code's.
pub data ChecksumError : Type 0 where
  bad_format does_not_match unrecognized : ChecksumError

unfoldable pub checksum_verify : ℕ → Option ChecksumError
checksum_verify num =
    if num == 0
    then some bad_format
    else if num == 1
    then some does_not_match
    else if num == 2
    then none
    else if num == 3
    then none
    else some unrecognized

-- A dot is 10, a digit its value; `Atoi` of another character is 0.
abbrev pub digit_of : ℕ → ℕ
digit_of c = if c == b'.' then 10 else if is_digit c then c - b'0' else 0

abbrev pub p3 : ℕ
p3 = 26 * 26 * 26

abbrev pub p5 : ℕ
p5 = 26 * 26 * 26 * 26 * 26

-- The weighted sum of all digits.
unfoldable pub weighted : List ℕ → ℕ → ℕ
weighted [] s = s
weighted (d ∷ ds) s = weighted ds ((31 * s + d) % p3)

-- The sums of the digits at even and at odd positions; `even` tells which the first one is.
unfoldable pub alternate : Bool → List ℕ → ℕ × ℕ → ℕ × ℕ
alternate even [] (s0, s1) = (s0, s1)
alternate true (d ∷ ds) (s0, s1) = alternate false ds ((s0 + d) % 11, s1)
alternate false (d ∷ ds) (s0, s1) = alternate true ds (s0, (s1 + d) % 11)

-- The hash of the ledger ID.
unfoldable pub hash_of : List ℕ → ℕ → ℕ
hash_of [] sh = sh
hash_of (b ∷ bs) sh = hash_of bs ((31 * sh + b) % p5)

-- The loop that writes the letters, the last one first.
unfoldable pub letters : ℕ → ℕ → Text → Text
letters zero checksum answer = answer
letters (suc k) checksum answer = letters k (checksum / 26) ((b'a' + checksum % 26) ∷ answer)

-- `_CheckChecksum`, for an address of ASCII characters.
unfoldable pub check_checksum : List ℕ → Text → Text
check_checksum ledger_id address =
    let digits = map digit_of address in
    let (s0, s1) = alternate true digits (0, 0) in
    let sh = hash_of (ledger_id ++ (0 ∷ 0 ∷ 0 ∷ 0 ∷ 0 ∷ 0 ∷ [])) 0 in
    let checksum =
      (((length address % 5 * 11 + s0) * 11 + s1) * p3 + weighted digits 0 + sh) % p5 in
    letters 5 (checksum * 1_000_003 % p5) []

-- `ParseInt` of a group of digits fails where it does not fit in int64.
abbrev fits : Option ℕ → Bool
fits none = false
fits (some n) = true

abbrev is_int64 : Text → Bool
is_int64 digits = fits (parse_uint (2 ^ 63) digits)

-- The status of `_ChecksumParseAddress`, and whether there is an error, for the groups of the regular
-- expression: the digits of three numbers, and the checksum or nothing.
unfoldable pub status_of : List ℕ → Text → Text → Text → Text → ℕ × Bool
status_of ledger_id num1 num2 num3 given =
    let checksum = check_checksum ledger_id (num1 ++ (b'.' ∷ []) ++ num2 ++ (b'.' ∷ []) ++ num3) in
    if not (is_int64 num1 && is_int64 num2 && is_int64 num3)
    then (0, true)
    else if text_eq given []
    then (2, false)
    else if text_eq given checksum
    then (3, false)
    else (1, false)
