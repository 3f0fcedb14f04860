-- ===== src/Transfer/Distinct.antt =====
-- sdk/transfer_transaction.go: no account has two transfers in a list.
use hiero_sdk_go.Base.{
  ◌≡◌, refl, sym, ap, ◌∙◌, inl, inr, Bool, true, false, Option, none, some, List, [], ◌∷◌, ◌++◌,
  if◌then◌else◌, Option-cases, All,
}
use mathlib.Core.Path.{subst}
use hiero_sdk_go.Base.Int.{ℤ}
use hiero_sdk_go.Transfer.{
  AccountId, same_account, HbarTransfer, TransferTransaction, require_not_frozen, cons_to, merge,
  or_append, add_amount, add_approved, add_hbar_transfer, add_approved_hbar_transfer,
}

-- No account is the same as one behind it.
unfoldable pub IsDistinct : List AccountId → Type 0
IsDistinct [] = Unit
IsDistinct (a ∷ accounts) = All (λ b. same_account a b ≡ false) accounts × IsDistinct accounts

IsDistinct-snoc :
    (accounts : List AccountId) (b : AccountId)
    → IsDistinct accounts
    → All (λ a. same_account a b ≡ false) accounts
    → IsDistinct (accounts ++ (b ∷ []))
unfolding IsDistinct
IsDistinct-snoc [] b d h = (tt, tt)
IsDistinct-snoc (a ∷ accounts) b (d, ds) (h, hs) =
    (snoc accounts d, IsDistinct-snoc accounts b ds hs)
  where
    snoc :
        (cs : List AccountId)
        → All (λ c. same_account a c ≡ false) cs
        → All (λ c. same_account a c ≡ false) (cs ++ (b ∷ []))
    snoc [] k = (h, tt)
    snoc (c ∷ cs) (k, ks) = (k, snoc cs ks)

module _ {H : Type 0} where
  unfoldable pub accounts_of : List (HbarTransfer H) → List AccountId
  accounts_of [] = []
  accounts_of (t ∷ ts) = t.account_id ∷ accounts_of ts

  accounts_of-snoc :
      (ts : List (HbarTransfer H)) (t : HbarTransfer H)
      → accounts_of (ts ++ (t ∷ [])) ≡ accounts_of ts ++ (t.account_id ∷ [])
  unfolding accounts_of
  accounts_of-snoc [] t = refl
  accounts_of-snoc (u ∷ ts) t = ap (λ l. u.account_id ∷ l) (accounts_of-snoc ts t)

  accounts_round :
      (change : HbarTransfer H → HbarTransfer H) (t : HbarTransfer H)
      (ts us : List (HbarTransfer H)) (b : Bool) (o : Option (List (HbarTransfer H)))
      → (change t).account_id ≡ t.account_id
      → ((ws : List (HbarTransfer H)) → o ≡ some ws → accounts_of ws ≡ accounts_of ts)
      → (if b then some (change t ∷ ts) else cons_to t o) ≡ some us
      → accounts_of us ≡ accounts_of (t ∷ ts)
  unfolding accounts_of
  accounts_round change t ts us true o keeps ih e =
      let same : us ≡ change t ∷ ts = cc in ap accounts_of same ∙ ap (λ a. a ∷ accounts_of ts) keeps
  accounts_round change t ts us false none keeps ih e = cc
  accounts_round change t ts us false (some ws) keeps ih e =
      let same : us ≡ t ∷ ws = cc in ap accounts_of same ∙ ap (λ l. t.account_id ∷ l) (ih ws refl)

  pub accounts_of-merge :
      (change : HbarTransfer H → HbarTransfer H) (a : AccountId) (ts us : List (HbarTransfer H))
      → ((t : HbarTransfer H) → (change t).account_id ≡ t.account_id)
      → merge change a ts ≡ some us
      → accounts_of us ≡ accounts_of ts
  unfolding merge
  accounts_of-merge change a [] us keeps e = cc
  accounts_of-merge change a (t ∷ ts) us keeps e =
      accounts_round change t ts us (same_account t.account_id a) (merge change a ts) (keeps t)
        (λ ws. accounts_of-merge change a ts ws keeps) e

  none_round :
      (change : HbarTransfer H → HbarTransfer H) (t : HbarTransfer H) (ts : List (HbarTransfer H))
      (b : Bool) (o : Option (List (HbarTransfer H)))
      → (if b then some (change t ∷ ts) else cons_to t o) ≡ none
      → (b ≡ false) × (o ≡ none)
  none_round change t ts true o e = cc
  none_round change t ts false none e = (refl, refl)
  none_round change t ts false (some ws) e = cc

  none_merged :
      (change : HbarTransfer H → HbarTransfer H) (a : AccountId) (ts : List (HbarTransfer H))
      → merge change a ts ≡ none
      → All (λ b. same_account b a ≡ false) (accounts_of ts)
  unfolding merge accounts_of
  none_merged change a [] e = tt
  none_merged change a (t ∷ ts) e =
      let (other, later) =
        none_round change t ts (same_account t.account_id a) (merge change a ts) e in
      (other, none_merged change a ts later)

  IsDistinct-or_append :
      (change : HbarTransfer H → HbarTransfer H) (t : HbarTransfer H) (ts : List (HbarTransfer H))
      → ((u : HbarTransfer H) → (change u).account_id ≡ u.account_id)
      → IsDistinct (accounts_of ts)
      → IsDistinct (accounts_of (or_append (merge change t.account_id ts) ts t))
  IsDistinct-or_append change t ts keeps d = elim (Option-cases (merge change t.account_id ts)) [
    | inl e ↦ rw e (
        subst IsDistinct (sym (accounts_of-snoc ts t))
          (IsDistinct-snoc (accounts_of ts) t.account_id d (none_merged change t.account_id ts e)))
    | inr (us, e) ↦
        rw e (subst IsDistinct (sym (accounts_of-merge change t.account_id ts us keeps e)) d)
  ]

module _ {H N : Type 0} (tx : TransferTransaction H N) (a : AccountId) (amount : ℤ) where
  -- Where no account has two transfers of hbars, none has two after one more is added, with or
  -- without approval.
  pub add_hbar_transfer-IsDistinct :
      (hook_call : Option H) (approve : Bool)
      → IsDistinct (accounts_of tx.hbar_transfers)
      → IsDistinct (accounts_of (add_hbar_transfer tx a amount hook_call).hbar_transfers)
        × IsDistinct (accounts_of (add_approved_hbar_transfer tx a amount approve).hbar_transfers)
  unfolding add_hbar_transfer add_approved_hbar_transfer require_not_frozen
  add_hbar_transfer-IsDistinct hook_call approve d = (
    IsDistinct-or_append (add_amount amount hook_call) _ tx.hbar_transfers (λ u. refl) d,
    IsDistinct-or_append (add_approved amount approve) _ tx.hbar_transfers (λ u. refl) d,
  )
