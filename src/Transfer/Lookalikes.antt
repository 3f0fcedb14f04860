-- ===== src/Transfer/Lookalikes.antt =====
-- sdk/transfer_transaction.go and sdk/account_id.go: transfers that share an entry, a recipient or
-- an approval.
use hiero_sdk_go.Base.{
  List, All, ap, ◌∙◌, ◌++◌, false, ℕ, ◌≡◌, refl, true, none, some, [], ◌∷◌, arith,
}
use hiero_sdk_go.Base.Int.{ℤ}
use hiero_sdk_go.Base.Int64.{◌+₆₄◌}
use hiero_sdk_go.Base.Text.{Text}
use hiero_sdk_go.Transfer.{
  AccountId, compare_account, same_account, HbarTransfer, TransferTransaction, require_not_frozen,
  merge, add_amount, add_hbar_transfer,
}

-- An account of a shard and realm that is known by its key only, and by its EVM address only.
abbrev pub of_key : ℕ → ℕ → Text → AccountId
of_key shard realm key = record {
  shard = shard;
  realm = realm;
  account = 0;
  alias_key = some key;
  alias_evm_address = none;
}

abbrev pub of_evm_address : ℕ → ℕ → Text → AccountId
of_evm_address shard realm address = record {
  shard = shard;
  realm = realm;
  account = 0;
  alias_key = none;
  alias_evm_address = some address;
}

same_aliases :
    (shard realm : ℕ) (key address : Text)
    → same_account (of_key shard realm key) (of_evm_address shard realm address) ≡ true
unfolding compare_account
same_aliases shard realm key address = ground arith

module _ {H : Type 0} where
  -- No transfer of the list is of the account.
  abbrev pub NoneOf : AccountId → List (HbarTransfer H) → Type 0
  NoneOf a ts = All (λ (t : HbarTransfer H). same_account t.account_id a ≡ false) ts

  merge_first :
      (change : HbarTransfer H → HbarTransfer H) (a : AccountId) (before : List (HbarTransfer H))
      (t : HbarTransfer H) (after : List (HbarTransfer H))
      → NoneOf a before
      → same_account t.account_id a ≡ true
      → merge change a (before ++ (t ∷ after)) ≡ some (before ++ (change t ∷ after))
  unfolding merge
  merge_first change a [] t after h k = rw k
  merge_first change a (b ∷ before) t after (h, hs) k =
      rw (h, merge_first change a before t after hs k) refl

module _ {H N : Type 0} where
  -- Where the first transfer that `Compare` takes for one to an EVM address is one to a key of that shard
  -- and realm, a transfer to the EVM address is merged into it: the whole amount goes to the account of
  -- the key, and the other transfers stay as they are.
  pub add_hbar_transfer_evm_address :
      (tx : TransferTransaction H N) (shard realm : ℕ) (key address : Text) (amount : ℤ)
      (before : List (HbarTransfer H)) (t : HbarTransfer H) (after : List (HbarTransfer H))
      → tx.hbar_transfers ≡ before ++ (t ∷ after)
      → NoneOf (of_evm_address shard realm address) before
      → t.account_id ≡ of_key shard realm key
      → (add_hbar_transfer tx (of_evm_address shard realm address) amount none).hbar_transfers
        ≡ before ++ (record t { amount = amount +₆₄ t.amount; hook_call = none } ∷ after)
  unfolding add_hbar_transfer require_not_frozen
  add_hbar_transfer_evm_address tx shard realm key address amount before t after h none_before e =
      let to : AccountId = of_evm_address shard realm address in
      let alike : same_account t.account_id to ≡ true =
        ap (λ a. same_account a to) e ∙ same_aliases shard realm key address in
      rw (h, merge_first (add_amount amount none) to before t after none_before alike) refl
