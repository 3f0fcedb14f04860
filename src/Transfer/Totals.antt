-- ===== src/Transfer/Totals.antt =====
-- sdk/transfer_transaction.go: what the functions that add transfers do to the sums of the amounts.
use hiero_sdk_go.Base.{
  ◌≡◌, refl, sym, ap, ◌∙◌, Bool, true, false, Option, none, some, List, [], ◌∷◌, ◌++◌,
  if◌then◌else◌,
}
use hiero_sdk_go.Base.Int.{ℤ, pos}
use hiero_sdk_go.Base.Int64.{◌+₆₄◌, +₆₄_comm, +₆₄_assoc}
use hiero_sdk_go.Transfer.{AccountId, same_account, HbarTransfer, cons_to, merge}

pub swap_sum : (a b v : ℤ) → a +₆₄ v +₆₄ b ≡ a +₆₄ b +₆₄ v
swap_sum a b v = +₆₄_assoc a v b ∙ ap (λ s. a +₆₄ s) (+₆₄_comm v b) ∙ sym (+₆₄_assoc a b v)

module _ {H : Type 0} where
  -- The sum of the amounts, as an int64.
  unfoldable pub total : List (HbarTransfer H) → ℤ
  total [] = pos 0
  total (t ∷ ts) = t.amount +₆₄ total ts

  pub total-snoc :
      (ts : List (HbarTransfer H)) (t : HbarTransfer H)
      → total (ts ++ (t ∷ [])) ≡ total ts +₆₄ t.amount
  unfolding total
  total-snoc [] t = +₆₄_comm t.amount (pos 0)
  total-snoc (u ∷ ts) t =
      ap (λ s. u.amount +₆₄ s) (total-snoc ts t) ∙ sym (+₆₄_assoc u.amount (total ts) t.amount)

  -- One round of the merge.
  total_round :
      (change : HbarTransfer H → HbarTransfer H) (v : ℤ) (t : HbarTransfer H)
      (ts us : List (HbarTransfer H)) (b : Bool) (o : Option (List (HbarTransfer H)))
      → (change t).amount ≡ t.amount +₆₄ v
      → ((ws : List (HbarTransfer H)) → o ≡ some ws → total ws ≡ total ts +₆₄ v)
      → (if b then some (change t ∷ ts) else cons_to t o) ≡ some us
      → total us ≡ t.amount +₆₄ total ts +₆₄ v
  unfolding total
  total_round change v t ts us true o adds ih e =
      let same : us ≡ change t ∷ ts = cc in
      ap total same ∙ ap (λ s. s +₆₄ total ts) adds ∙ swap_sum t.amount (total ts) v
  total_round change v t ts us false none adds ih e = cc
  total_round change v t ts us false (some ws) adds ih e =
      let same : us ≡ t ∷ ws = cc in
      ap total same ∙ ap (λ s. t.amount +₆₄ s) (ih ws refl) ∙ sym (+₆₄_assoc t.amount (total ts) v)

  -- Where the change adds `v`, so does the merge.
  pub total-merge :
      (change : HbarTransfer H → HbarTransfer H) (a : AccountId) (v : ℤ)
      (ts us : List (HbarTransfer H))
      → ((t : HbarTransfer H) → (change t).amount ≡ t.amount +₆₄ v)
      → merge change a ts ≡ some us
      → total us ≡ total ts +₆₄ v
  unfolding total merge
  total-merge change a v [] us adds e = cc
  total-merge change a v (t ∷ ts) us adds e =
      total_round change v t ts us (same_account t.account_id a) (merge change a ts) (adds t)
        (λ ws. total-merge change a v ts ws adds) e
