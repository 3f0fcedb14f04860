-- ===== src/Transfer/Tokens.antt =====
-- sdk/transfer_transaction.go: the transfers of tokens and of NFTs, the approvals, the getters and
-- the body of the transaction.
use hiero_sdk_go.Base.{ℕ, Bool, false, Option, none, some, List, [], ◌∷◌, ◌++◌, map, if◌then◌else◌}
use hiero_sdk_go.Base.Int.{ℤ}
use hiero_sdk_go.Base.Int64.{◌+₆₄◌}
use hiero_sdk_go.Node.{eq_ℤ}
use hiero_sdk_go.Transfer.{
  AccountId, TokenId, same_account, same_token, same_key, HbarTransfer, TokenTransfer,
  TokenNftTransfer, NftId, TransferTransaction, require_not_frozen, cons_to, merge,
}

-- One entry of `GetTokenIDDecimals`.
abbrev decimals_of : TokenId → Option ℕ → List (TokenId × ℕ) → List (TokenId × ℕ)
decimals_of token none m = m
decimals_of token (some d) m = (token, d) ∷ m

module _ {H : Type 0} where
  -- The entry whose transfers were merged, or else the rest of the map.
  abbrev pub or_later :
      TokenId
      → TokenTransfer H
      → List (TokenId × TokenTransfer H)
      → (List (HbarTransfer H) → TokenTransfer H)
      → Option (List (HbarTransfer H))
      → Option (List (TokenId × TokenTransfer H))
      → Option (List (TokenId × TokenTransfer H))
  or_later key v m finish none later = cons_to (key, v) later
  or_later key v m finish (some us) later = some ((key, finish us) ∷ m)

  -- The loop over the tokens: in the first one that has a transfer of the account, it is changed.
  unfoldable pub merge_token :
      TokenId
      → AccountId
      → (HbarTransfer H → HbarTransfer H)
      → (List (HbarTransfer H) → TokenTransfer H)
      → List (TokenId × TokenTransfer H)
      → Option (List (TokenId × TokenTransfer H))
  merge_token token a change finish [] = none
  merge_token token a change finish ((key, v) ∷ m) =
      or_later key v m finish (if same_token key token then merge change a v.transfers else none)
        (merge_token token a change finish m)

  -- A transfer appended to the entry of its token, or a new entry.
  unfoldable pub append_token :
      TokenId
      → HbarTransfer H
      → Option ℕ
      → List (TokenId × TokenTransfer H)
      → List (TokenId × TokenTransfer H)
  append_token token t decimal [] =
      (token, record { transfers = t ∷ []; expected_decimals = decimal }) ∷ []
  append_token token t decimal ((key, v) ∷ m) =
      if same_key key token
      then (key, record { transfers = v.transfers ++ (t ∷ []); expected_decimals = decimal }) ∷ m
      else (key, v) ∷ append_token token t decimal m

  abbrev pub or_append_token :
      Option (List (TokenId × TokenTransfer H))
      → TokenId
      → HbarTransfer H
      → Option ℕ
      → List (TokenId × TokenTransfer H)
      → List (TokenId × TokenTransfer H)
  or_append_token none token t decimal m = append_token token t decimal m
  or_append_token (some m') token t decimal m = m'

  abbrev pub approve_all : Bool → List (HbarTransfer H) → List (HbarTransfer H)
  approve_all approve ts = map (λ (t : HbarTransfer H). record t { is_approved = approve }) ts

  abbrev pub add_value : ℤ → HbarTransfer H → HbarTransfer H
  add_value value t = record t { amount = t.amount +₆₄ value }

  abbrev pub add_value_hooked : ℤ → Option H → HbarTransfer H → HbarTransfer H
  add_value_hooked value hook_call t = record t {
    amount = t.amount +₆₄ value;
    hook_call = hook_call;
  }

  abbrev pub approve_account : AccountId → Bool → HbarTransfer H → HbarTransfer H
  approve_account a approval t =
      if same_account t.account_id a then record t { is_approved = approval } else t

  unfoldable pub get_token_id_decimals : List (TokenId × TokenTransfer H) → List (TokenId × ℕ)
  get_token_id_decimals [] = []
  get_token_id_decimals ((token, v) ∷ m) =
      decimals_of token v.expected_decimals (get_token_id_decimals m)

module _ {N : Type 0} where
  unfoldable pub append_nft :
      TokenId
      → TokenNftTransfer N
      → List (TokenId × List (TokenNftTransfer N))
      → List (TokenId × List (TokenNftTransfer N))
  append_nft token t [] = (token, t ∷ []) ∷ []
  append_nft token t ((key, ts) ∷ m) =
      if same_key key token then (key, ts ++ (t ∷ [])) ∷ m else (key, ts) ∷ append_nft token t m

module _ {H N : Type 0} where
  unfoldable pub add_token_transfer_with_decimals :
      TransferTransaction H N → TokenId → AccountId → ℤ → ℕ → TransferTransaction H N
  add_token_transfer_with_decimals tx token a value decimal =
      let t : HbarTransfer H = record {
        account_id = a;
        amount = value;
        is_approved = false;
        hook_call = none;
      } in
      let merged =
        merge_token token a (add_value value)
          (λ us. record { transfers = us; expected_decimals = some decimal }) tx.token_transfers in
      record (require_not_frozen tx) {
        token_transfers = or_append_token merged token t (some decimal) tx.token_transfers;
      }

  -- Merging sets the approval of every transfer of the token, as the code does.
  unfoldable pub add_token_transfer :
      TransferTransaction H N
      → TokenId
      → AccountId
      → ℤ
      → Option ℕ
      → Bool
      → Option H
      → TransferTransaction H N
  add_token_transfer tx token a value decimal approve hook_call =
      let t : HbarTransfer H = record {
        account_id = a;
        amount = value;
        is_approved = approve;
        hook_call = hook_call;
      } in
      let merged =
        merge_token token a (add_value_hooked value hook_call)
          (λ us. record { transfers = approve_all approve us; expected_decimals = decimal })
          tx.token_transfers in
      record (require_not_frozen tx) {
        token_transfers = or_append_token merged token t decimal tx.token_transfers;
      }

  unfoldable pub add_nft_transfer :
      TransferTransaction H N
      → NftId
      → AccountId
      → AccountId
      → Bool
      → Option N
      → Option N
      → TransferTransaction H N
  add_nft_transfer tx nft sender receiver approve sender_hook_call receiver_hook_call =
      let t : TokenNftTransfer N = record {
        sender_account_id = sender;
        receiver_account_id = receiver;
        serial_number = nft.serial_number;
        is_approved = approve;
        sender_hook_call = sender_hook_call;
        receiver_hook_call = receiver_hook_call;
      } in
      record (require_not_frozen tx) { nft_transfers = append_nft nft.token_id t tx.nft_transfers }

  unfoldable pub set_token_transfer_approval :
      TransferTransaction H N → TokenId → AccountId → Bool → TransferTransaction H N
  set_token_transfer_approval tx token a approval = record tx {
    token_transfers =
        map
          (λ (e : TokenId × TokenTransfer H).
            if same_token e.0 token
            then (e.0, record e.1 { transfers = map (approve_account a approval) e.1.transfers })
            else e)
          tx.token_transfers;
  }

  unfoldable pub set_nft_transfer_approval :
      TransferTransaction H N → NftId → Bool → TransferTransaction H N
  set_nft_transfer_approval tx nft approval = record tx {
    nft_transfers =
        map
          (λ (e : TokenId × List (TokenNftTransfer N)).
            if same_token e.0 nft.token_id
            then (
              e.0,
              map
                  (λ (t : TokenNftTransfer N).
                    if eq_ℤ t.serial_number nft.serial_number
                    then record t { is_approved = approval }
                    else t)
                  e.1,
            )
            else e)
          tx.nft_transfers;
  }

-- `CryptoTransferTransactionBody`, whose entries, of the types `P` and `Q`, the transfers'
-- conversions to protobuf make; those conversions are arguments. A token's has no checksum.
pub record TokenTransferList (P Q : Type 0) : Type 0 where
  pub token : TokenId
  pub transfers : List P
  pub nft_transfers : List Q
  pub expected_decimals : Option ℕ

pub record CryptoTransferBody (P Q : Type 0) : Type 0 where
  pub account_amounts : List P
  pub token_transfers : List (TokenTransferList P Q)

unfoldable pub build_proto_body :
    {H N P Q : Type 0}
    → (HbarTransfer H → P)
    → (TokenNftTransfer N → Q)
    → TransferTransaction H N
    → CryptoTransferBody P Q
build_proto_body transfer_to_protobuf nft_to_protobuf tx = record {
  account_amounts = map transfer_to_protobuf tx.hbar_transfers;
  token_transfers =
      map
        (λ (e : TokenId × TokenTransfer _). record {
          token = record e.0 { checksum = none };
          transfers = map transfer_to_protobuf e.1.transfers;
          nft_transfers = [];
          expected_decimals = e.1.expected_decimals;
        })
        tx.token_transfers
      ++ map
          (λ (e : TokenId × List (TokenNftTransfer _)). record {
            token = record e.0 { checksum = none };
            transfers = [];
            nft_transfers = map nft_to_protobuf e.1;
            expected_decimals = none;
          })
          tx.nft_transfers;
}
