-- ===== src/Checksum/Tests.antt =====
-- sdk/entity_id.go at a concrete address.
use hiero_sdk_go.Base.{◌≡◌, All, length, false, refl, [], ◌∷◌}
use hiero_sdk_go.Base.Text.{Text, is_digit, codes, text_eq, parse_uint}
use hiero_sdk_go.Checksum.{check_checksum, status_of, weighted, alternate, hash_of, letters}
use hiero_sdk_go.Checksum.Letters.{IsLetter, check_checksum-IsLetters}

-- "0.0.123", whose checksum on the main network, of the ledger ID 0, is "vfmkw".
abbrev address : Text
address = 48 ∷ 46 ∷ 48 ∷ 46 ∷ 49 ∷ 50 ∷ 51 ∷ []

abbrev vfmkw : Text
vfmkw = 118 ∷ 102 ∷ 109 ∷ 107 ∷ 119 ∷ []

check_checksum_mainnet : check_checksum (0 ∷ []) address ≡ vfmkw
unfolding check_checksum weighted alternate hash_of letters is_digit
check_checksum_mainnet = refl

status_mainnet : status_of (0 ∷ []) (codes "0") (codes "0") (codes "123") vfmkw ≡ (3, false)
unfolding status_of check_checksum weighted alternate hash_of letters is_digit text_eq parse_uint
status_mainnet = refl

check_checksum-IsLetters_example :
    All IsLetter (check_checksum (0 ∷ []) address) × (length (check_checksum (0 ∷ []) address) ≡ 5)
check_checksum-IsLetters_example = check_checksum-IsLetters (0 ∷ []) address
