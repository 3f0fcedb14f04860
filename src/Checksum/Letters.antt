-- ===== src/Checksum/Letters.antt =====
-- sdk/entity_id.go: the form of the checksums that the code writes.
use hiero_sdk_go.Base.{ℕ, zero, suc, ◌+◌, ◌/◌, ◌%◌, ◌≤◌, ◌≡◌, List, [], ◌∷◌, arith, length, All}
use hiero_sdk_go.Base.Text.{Text}
use hiero_sdk_go.Checksum.{letters, check_checksum}

abbrev pub IsLetter : ℕ → Type 0
IsLetter c = (b'a' ≤ c) × (c ≤ b'z')

letters-All :
    (k checksum : ℕ) (answer : Text)
    → All IsLetter answer
    → All IsLetter (letters k checksum answer)
unfolding letters
letters-All zero checksum answer h = h
letters-All (suc k) checksum answer h =
    letters-All k (checksum / 26) _ ((omega arith, omega arith), h)

length-letters :
    (k checksum : ℕ) (answer : Text) → length (letters k checksum answer) ≡ k + length answer
unfolding letters
length-letters zero checksum answer = omega arith
length-letters (suc k) checksum answer =
    omega (arith, length-letters k (checksum / 26) ((b'a' + checksum % 26) ∷ answer))

-- A checksum is five letters from a to z, whatever the ledger ID and the address.
pub check_checksum-IsLetters :
    (ledger_id : List ℕ) (address : Text)
    → All IsLetter (check_checksum ledger_id address)
      × (length (check_checksum ledger_id address) ≡ 5)
unfolding check_checksum
check_checksum-IsLetters ledger_id address = (letters-All 5 _ [] tt, length-letters 5 _ [])
