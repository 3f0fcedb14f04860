-- ===== src/Transfer.antt =====
-- sdk/transfer_transaction.go, with `Compare` of sdk/account_id.go and sdk/token_id.go: the lists of
-- transfers that a transfer transaction collects. A Go map is an association list in the order in
-- which one iteration meets its entries. Transfers are those that the functions below add, so that
-- an account ID is never nil. Hook calls, of the types `H` and `N`, are passed on as they are.
pub mod Tokens
pub mod Totals
pub mod TokenTotals
pub mod Distinct
pub mod Lookalikes
pub mod Validate
mod Tests
use hiero_sdk_go.Base.{
  ℕ, Bool, true, false, ◌&&◌, ◌||◌, Option, none, some, List, [], ◌∷◌, ◌++◌, map, ltb, ◌==◌,
  if◌then◌else◌,
}
use hiero_sdk_go.Base.Int.{ℤ, pos, negsuc}
use hiero_sdk_go.Base.Int64.{◌+₆₄◌}
use hiero_sdk_go.Base.Text.{Text}
use hiero_sdk_go.Node.{eq_ℤ}

-- Aliases are held as the texts that `Compare` compares: a key's `String()` and the hexadecimal
-- digits of an EVM address.
pub record AccountId : Type 0 where
  pub shard : ℕ
  pub realm : ℕ
  pub account : ℕ
  pub alias_key : Option Text
  pub alias_evm_address : Option Text

-- The checksum is a pointer, held as its address.
pub record TokenId : Type 0 where
  pub shard : ℕ
  pub realm : ℕ
  pub token : ℕ
  pub checksum : Option ℕ

abbrev pub by_number : ℕ → ℕ → ℤ → ℤ
by_number a b rest = if ltb b a then pos 1 else if ltb a b then negsuc 0 else rest

-- The order of Go's strings.
unfoldable pub ltb_text : Text → Text → Bool
ltb_text xs [] = false
ltb_text [] (b ∷ bs) = true
ltb_text (a ∷ xs) (b ∷ bs) = if a == b then ltb_text xs bs else ltb a b

abbrev pub by_alias : Option Text → Option Text → ℤ → ℤ
by_alias (some a) (some b) rest =
    if ltb_text b a then pos 1 else if ltb_text a b then negsuc 0 else rest
by_alias _ _ rest = rest

-- `AccountID.Compare`
unfoldable pub compare_account : AccountId → AccountId → ℤ
compare_account id given = by_number id.shard given.shard (
    by_number id.realm given.realm (
      by_alias id.alias_key given.alias_key (
        by_alias id.alias_evm_address given.alias_evm_address
          (by_number id.account given.account (pos 0)))))

-- `TokenID.Compare`
unfoldable pub compare_token : TokenId → TokenId → ℤ
compare_token id given =
    by_number id.shard given.shard
      (by_number id.realm given.realm (by_number id.token given.token (pos 0)))

abbrev pub same_account : AccountId → AccountId → Bool
same_account id given = eq_ℤ (compare_account id given) (pos 0)

abbrev pub same_token : TokenId → TokenId → Bool
same_token id given = eq_ℤ (compare_token id given) (pos 0)

abbrev pub same_pointer : Option ℕ → Option ℕ → Bool
same_pointer none none = true
same_pointer (some p) (some q) = p == q
same_pointer _ _ = false

-- Equality of the keys of a Go map, which looks at the pointer.
abbrev pub same_key : TokenId → TokenId → Bool
same_key id given =
    id.shard == given.shard
    && id.realm == given.realm
    && id.token == given.token
    && same_pointer id.checksum given.checksum

pub record HbarTransfer (H : Type 0) : Type 0 where
  pub account_id : AccountId
  pub amount : ℤ
  pub is_approved : Bool
  pub hook_call : Option H

pub record TokenTransfer (H : Type 0) : Type 0 where
  pub transfers : List (HbarTransfer H)
  pub expected_decimals : Option ℕ

pub record TokenNftTransfer (N : Type 0) : Type 0 where
  pub sender_account_id : AccountId
  pub receiver_account_id : AccountId
  pub serial_number : ℤ
  pub is_approved : Bool
  pub sender_hook_call : Option N
  pub receiver_hook_call : Option N

pub record NftId : Type 0 where
  pub token_id : TokenId
  pub serial_number : ℤ

-- Of the transaction that it extends, only whether it is frozen, and whether the error of changing
-- a frozen transaction is recorded.
pub record TransferTransaction (H N : Type 0) : Type 0 where
  pub frozen : Bool
  pub freeze_error : Bool
  pub token_transfers : List (TokenId × TokenTransfer H)
  pub hbar_transfers : List (HbarTransfer H)
  pub nft_transfers : List (TokenId × List (TokenNftTransfer N))

abbrev pub cons_to : {A : Type 0} → A → Option (List A) → Option (List A)
cons_to x none = none
cons_to x (some xs) = some (x ∷ xs)

abbrev pub or_append : {A : Type 0} → Option (List A) → List A → A → List A
or_append none ts t = ts ++ (t ∷ [])
or_append (some us) ts t = us

module _ {H : Type 0} where
  -- The loop over the transfers: the first one of the account is changed.
  unfoldable pub merge :
      (HbarTransfer H → HbarTransfer H)
      → AccountId
      → List (HbarTransfer H)
      → Option (List (HbarTransfer H))
  merge change a [] = none
  merge change a (t ∷ ts) =
      if same_account t.account_id a then some (change t ∷ ts) else cons_to t (merge change a ts)

  abbrev pub add_amount : ℤ → Option H → HbarTransfer H → HbarTransfer H
  add_amount amount hook_call t = record t { amount = amount +₆₄ t.amount; hook_call = hook_call }

  abbrev pub add_approved : ℤ → Bool → HbarTransfer H → HbarTransfer H
  add_approved amount approve t = record t { amount = amount +₆₄ t.amount; is_approved = approve }

module _ {H N : Type 0} where
  unfoldable pub new_transfer_transaction : TransferTransaction H N
  new_transfer_transaction = record {
    frozen = false;
    freeze_error = false;
    token_transfers = [];
    hbar_transfers = [];
    nft_transfers = [];
  }

  -- `_RequireNotFrozen` records an error and returns; the caller goes on.
  unfoldable pub require_not_frozen : TransferTransaction H N → TransferTransaction H N
  require_not_frozen tx = record tx { freeze_error = tx.freeze_error || tx.frozen }

  unfoldable pub add_hbar_transfer :
      TransferTransaction H N → AccountId → ℤ → Option H → TransferTransaction H N
  add_hbar_transfer tx a amount hook_call =
      let t : HbarTransfer H = record {
        account_id = a;
        amount = amount;
        is_approved = false;
        hook_call = hook_call;
      } in
      record (require_not_frozen tx) {
        hbar_transfers =
            or_append (merge (add_amount amount hook_call) a tx.hbar_transfers) tx.hbar_transfers t;
      }

  unfoldable pub add_approved_hbar_transfer :
      TransferTransaction H N → AccountId → ℤ → Bool → TransferTransaction H N
  add_approved_hbar_transfer tx a amount approve =
      let t : HbarTransfer H = record {
        account_id = a;
        amount = amount;
        is_approved = approve;
        hook_call = none;
      } in
      record (require_not_frozen tx) {
        hbar_transfers =
            or_append (merge (add_approved amount approve) a tx.hbar_transfers) tx.hbar_transfers t;
      }
