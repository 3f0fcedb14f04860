-- ===== src/Transfer/Tests.antt =====
-- sdk/transfer_transaction.go at concrete transactions.
use hiero_sdk_go.Base.{
  ℕ, List, ◌==◌, if◌then◌else◌, All, ◌↔◌, ◌≡◌, refl, true, false, Option, none, some, [], ◌∷◌,
}
use hiero_sdk_go.Base.Int.{ℤ, pos, negsuc}
use hiero_sdk_go.Base.Int64.{◌+₆₄◌}
use hiero_sdk_go.Transfer.{
  AccountId, TokenId, compare_account, HbarTransfer, TransferTransaction, add_hbar_transfer,
  add_approved_hbar_transfer,
}
use hiero_sdk_go.Transfer.Tokens.{add_token_transfer, add_token_transfer_with_decimals}
use hiero_sdk_go.Transfer.TokenTotals.{token_total, share, token_total-add_token_transfer}
use hiero_sdk_go.Transfer.Distinct.{IsDistinct, accounts_of, add_hbar_transfer-IsDistinct}
use hiero_sdk_go.Transfer.Lookalikes.{of_key, of_evm_address, add_hbar_transfer_evm_address}
use hiero_sdk_go.Transfer.Validate.{validate_network_on_ids, validate_network_on_ids_lem}

abbrev account : ℕ → AccountId
account n = record { shard = 0; realm = 0; account = n; alias_key = none; alias_evm_address = none }

abbrev token : ℕ → TokenId
token n = record { shard = 0; realm = 0; token = n; checksum = none }

abbrev transfer : AccountId → ℤ → HbarTransfer ℕ
transfer a amount = record {
  account_id = a;
  amount = amount;
  is_approved = false;
  hook_call = none;
}

abbrev two_transfers : List (HbarTransfer ℕ)
two_transfers = transfer (account 3) (negsuc 4) ∷ transfer (account 5) (pos 5) ∷ []

-- Ten hbars go from account 3 to account 4, and 5 of token 9 from account 3 to account 5.
abbrev payment : TransferTransaction ℕ ℕ
payment = record {
  frozen = false;
  freeze_error = false;
  token_transfers =
      (
        token 9,
        record {
          transfers = transfer (account 3) (negsuc 4) ∷ transfer (account 5) (pos 5) ∷ [];
          expected_decimals = none;
        },
      )
      ∷ [];
  hbar_transfers = transfer (account 3) (negsuc 9) ∷ transfer (account 4) (pos 10) ∷ [];
  nft_transfers = [];
}

token_total-add_token_transfer_example :
    (token_total
        (token 9)
        (add_token_transfer payment (token 9) (account 3) (negsuc 1) none true none).token_transfers
      ≡ token_total (token 9) payment.token_transfers +₆₄ share (token 9) (token 9) (negsuc 1))
    × (token_total
          (token 9)
          (add_token_transfer_with_decimals payment
            (token 9)
            (account 3)
            (negsuc 1)
            2).token_transfers
        ≡ token_total (token 9) payment.token_transfers +₆₄ share (token 9) (token 9) (negsuc 1))
token_total-add_token_transfer_example =
    token_total-add_token_transfer payment (token 9) (token 9) (account 3) (negsuc 1) 2 none true
      none

payment-IsDistinct : IsDistinct (accounts_of payment.hbar_transfers)
unfolding IsDistinct accounts_of compare_account
payment-IsDistinct = ((refl, tt), (tt, tt))

add_hbar_transfer-IsDistinct_example :
    IsDistinct (accounts_of (add_hbar_transfer payment (account 6) (pos 2) none).hbar_transfers)
    × IsDistinct
        (accounts_of (add_approved_hbar_transfer payment (account 6) (pos 2) true).hbar_transfers)
add_hbar_transfer-IsDistinct_example =
    add_hbar_transfer-IsDistinct payment (account 6) (pos 2) none true payment-IsDistinct

abbrev to_key : TransferTransaction ℕ ℕ
to_key = record payment { hbar_transfers = transfer (of_key 0 0 (49 ∷ [])) (pos 10) ∷ [] }

add_hbar_transfer_evm_address_example :
    (add_hbar_transfer to_key (of_evm_address 0 0 (50 ∷ [])) (pos 2) none).hbar_transfers
    ≡ transfer (of_key 0 0 (49 ∷ [])) (pos 2 +₆₄ pos 10) ∷ []
add_hbar_transfer_evm_address_example =
    add_hbar_transfer_evm_address to_key 0 0 (49 ∷ []) (50 ∷ []) (pos 2) []
      (transfer (of_key 0 0 (49 ∷ [])) (pos 10)) [] refl tt refl

-- Only account 5 has a checksum that does not match.
abbrev check_account : AccountId → Option ℕ
check_account a = if a.account == 5 then some 5 else none

abbrev check_token : TokenId → Option ℕ
check_token t = none

validate_network_on_ids_example :
    (validate_network_on_ids true check_token check_account payment ≡ none) ↔ (
      All
        (λ e. (check_token e.0 ≡ none) × All (λ t. check_account t.account_id ≡ none) e.1.transfers)
        payment.token_transfers
      × (All
            (λ e.
              (check_token e.0 ≡ none)
              × All
                  (λ t.
                    (check_account t.sender_account_id ≡ none)
                    × (check_account t.receiver_account_id ≡ none))
                  e.1)
            payment.nft_transfers
          × All (λ t. check_account t.account_id ≡ none) payment.hbar_transfers))
validate_network_on_ids_example = validate_network_on_ids_lem check_token check_account payment
