-- ===== src/Transfer/Validate.antt =====
-- sdk/transfer_transaction.go: the check of the checksums of all IDs of a transaction.
use hiero_sdk_go.Base.{
  ◌≡◌, ◌↔◌, refl, Bool, true, not, Option, none, some, List, [], ◌∷◌, if◌then◌else◌, All,
}
use hiero_sdk_go.Transfer.{AccountId, TokenId, TransferTransaction}

abbrev pub or_else : {E : Type 0} → Option E → Option E → Option E
or_else none next = next
or_else (some err) next = some err

-- A loop that returns at the first error.
unfoldable pub first_error : {A E : Type 0} → (A → Option E) → List A → Option E
first_error check [] = none
first_error check (x ∷ xs) = or_else (check x) (first_error check xs)

-- `ValidateChecksum` of a token and of an account are arguments, as is whether there is a client
-- that validates checksums.
unfoldable pub validate_network_on_ids :
    {H N E : Type 0}
    → Bool
    → (TokenId → Option E)
    → (AccountId → Option E)
    → TransferTransaction H N
    → Option E
validate_network_on_ids auto check_token check_account tx =
    if not auto
    then none
    else or_else
        (first_error
          (λ e.
            or_else (check_token e.0) (first_error (λ t. check_account t.account_id) e.1.transfers))
          tx.token_transfers)
        (or_else
          (first_error
            (λ e. or_else (check_token e.0) (
              first_error
                (λ t.
                  or_else (check_account t.sender_account_id) (check_account t.receiver_account_id))
                e.1))
            tx.nft_transfers)
          (first_error (λ t. check_account t.account_id) tx.hbar_transfers))

or_else_both :
    {E P Q : Type 0} (a b : Option E)
    → (a ≡ none) ↔ P
    → (b ≡ none) ↔ Q
    → (or_else a b ≡ none) ↔ (P × Q)
or_else_both none b f g = (λ h. (f.0 refl, g.0 h), λ h. g.1 h.1)
or_else_both (some err) b f g = (λ h. cc, λ h. cc (f.1 h.0))

itself : {P : Type 0} → P ↔ P
itself = (λ h. h, λ h. h)

first_error_none :
    {A E : Type 0} (check : A → Option E) (P : A → Type 0) (xs : List A)
    → ((x : A) → (check x ≡ none) ↔ P x)
    → (first_error check xs ≡ none) ↔ All P xs
unfolding first_error
first_error_none check P [] h = (λ e. tt, λ e. refl)
first_error_none check P (x ∷ xs) h =
    or_else_both (check x) (first_error check xs) (h x) (first_error_none check P xs h)

module _ {H N E : Type 0} (check_token : TokenId → Option E)
    (check_account : AccountId → Option E) where
  -- Where checksums are validated, there is no error exactly if every token, every account of a token
  -- transfer, every sender and receiver of an NFT and every account of a transfer of hbars has none.
  pub validate_network_on_ids_lem :
      (tx : TransferTransaction H N)
      → (validate_network_on_ids true check_token check_account tx ≡ none) ↔ (
          All
            (λ e.
              (check_token e.0 ≡ none) × All (λ t. check_account t.account_id ≡ none) e.1.transfers)
            tx.token_transfers
          × (All
                (λ e.
                  (check_token e.0 ≡ none)
                  × All
                      (λ t.
                        (check_account t.sender_account_id ≡ none)
                        × (check_account t.receiver_account_id ≡ none))
                      e.1)
                tx.nft_transfers
              × All (λ t. check_account t.account_id ≡ none) tx.hbar_transfers))
  unfolding validate_network_on_ids
  validate_network_on_ids_lem tx =
      or_else_both _ _
        (first_error_none _ _ tx.token_transfers
          (λ e. or_else_both _ _ itself (first_error_none _ _ e.1.transfers (λ t. itself))))
        (or_else_both _ _
          (first_error_none _ _ tx.nft_transfers (λ e.
            or_else_both _ _ itself
              (first_error_none _ _ e.1 (λ t. or_else_both _ _ itself itself))))
          (first_error_none _ _ tx.hbar_transfers (λ t. itself)))
