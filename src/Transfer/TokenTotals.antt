-- ===== src/Transfer/TokenTotals.antt =====
-- sdk/transfer_transaction.go: what adding a token transfer does to the sums of every token.
use hiero_sdk_go.Base.{
  ℕ, ◌≡◌, refl, sym, ap, ◌∙◌, inl, inr, Bool, true, false, ◌&&◌, Option, none, some, List, [], ◌∷◌,
  ◌++◌, arith, ◌==◌, if◌then◌else◌, Bool-cases, Option-cases,
}
use hiero_sdk_go.Base.Int.{ℤ, pos, ◌+ℤ◌}
use hiero_sdk_go.Base.Int64.{wrap, ◌+₆₄◌, +₆₄_comm, +₆₄_assoc}
use hiero_sdk_go.Transfer.{
  AccountId, TokenId, compare_token, same_token, same_key, HbarTransfer, TokenTransfer,
  TransferTransaction, require_not_frozen, merge,
}
use hiero_sdk_go.Transfer.Tokens.{
  or_later, merge_token, append_token, or_append_token, approve_all, add_value, add_value_hooked,
  add_token_transfer_with_decimals, add_token_transfer,
}
use hiero_sdk_go.Transfer.Totals.{swap_sum, total, total-snoc, total-merge}

same_numbers :
    (a b : TokenId)
    → same_token a b ≡ (a.shard == b.shard) && (a.realm == b.realm) && (a.token == b.token)
unfolding compare_token
same_numbers a b = ground arith

same_token_trans :
    (key token t : TokenId) → same_token key token ≡ true → same_token key t ≡ same_token token t
same_token_trans key token t e =
    ground (arith, same_numbers key token, same_numbers key t, same_numbers token t)

same_key-same_token :
    (key token : TokenId) → same_key key token ≡ true → same_token key token ≡ true
same_key-same_token key token e = ground (arith, same_numbers key token)

-- What an amount of one token is in the sum of another.
abbrev pub share : TokenId → TokenId → ℤ → ℤ
share key t amount = if same_token key t then amount else pos 0

share_trans :
    (key token t : TokenId) (amount : ℤ)
    → same_token key token ≡ true
    → share key t amount ≡ share token t amount
share_trans key token t amount e =
    ap (λ b. (if b then amount else pos 0)) (same_token_trans key token t e)

share_sum : (key t : TokenId) (a b : ℤ) → share key t (a +₆₄ b) ≡ share key t a +₆₄ share key t b
unfolding ◌+₆₄◌ wrap ◌+ℤ◌
share_sum key t a b = elim (Bool-cases (same_token key t)) [ inl e ↦ rw e refl | inr e ↦ rw e refl ]

share_added :
    (key token t : TokenId) (a b v : ℤ)
    → same_token key token ≡ true
    → b ≡ a +₆₄ v
    → share key t b ≡ share key t a +₆₄ share token t v
share_added key token t a b v e h =
    ap (share key t) h
    ∙ share_sum key t a v
    ∙ ap (λ s. share key t a +₆₄ s) (share_trans key token t v e)

share_zero : (key t : TokenId) → share key t (pos 0) ≡ pos 0
share_zero key t = elim (Bool-cases (same_token key t)) [ inl e ↦ rw e refl | inr e ↦ rw e refl ]

zero_sum : pos 0 +₆₄ pos 0 ≡ pos 0
unfolding ◌+₆₄◌ wrap ◌+ℤ◌
zero_sum = refl

-- The sum of a new entry.
share_alone :
    (key t : TokenId) (n : ℤ) → share key t (n +₆₄ pos 0) +₆₄ pos 0 ≡ pos 0 +₆₄ share key t n
share_alone key t n =
    ap (λ s. s +₆₄ pos 0)
      (share_sum key t n (pos 0) ∙ ap (λ s. share key t n +₆₄ s) (share_zero key t))
    ∙ +₆₄_assoc (share key t n) (pos 0) (pos 0)
    ∙ ap (λ s. share key t n +₆₄ s) zero_sum
    ∙ +₆₄_comm (share key t n) (pos 0)

module _ {H : Type 0} where
  -- The sum of the amounts of a token, over all the entries of its numbers.
  unfoldable pub token_total : TokenId → List (TokenId × TokenTransfer H) → ℤ
  token_total t [] = pos 0
  token_total t ((key, v) ∷ m) = share key t (total v.transfers) +₆₄ token_total t m

  merge_within :
      (b : Bool) (change : HbarTransfer H → HbarTransfer H) (a : AccountId) (n : ℤ)
      (ts us : List (HbarTransfer H))
      → ((u : HbarTransfer H) → (change u).amount ≡ u.amount +₆₄ n)
      → (if b then merge change a ts else none) ≡ some us
      → (b ≡ true) × (total us ≡ total ts +₆₄ n)
  merge_within true change a n ts us adds e = (refl, total-merge change a n ts us adds e)
  merge_within false change a n ts us adds e = cc

  -- One round of the loop over the tokens.
  merge_round :
      (token t key : TokenId) (n : ℤ) (v : TokenTransfer H)
      (m m' : List (TokenId × TokenTransfer H)) (finish : List (HbarTransfer H) → TokenTransfer H)
      (inner : Option (List (HbarTransfer H))) (later : Option (List (TokenId × TokenTransfer H)))
      → ((us : List (HbarTransfer H))
          → inner ≡ some us
          → (same_token key token ≡ true) × (total (finish us).transfers ≡ total v.transfers +₆₄ n))
      → ((w : List (TokenId × TokenTransfer H))
          → later ≡ some w
          → token_total t w ≡ token_total t m +₆₄ share token t n)
      → or_later key v m finish inner later ≡ some m'
      → token_total t m' ≡ token_total t ((key, v) ∷ m) +₆₄ share token t n
  unfolding token_total
  merge_round token t key n v m m' finish none none hi hl e = cc
  merge_round token t key n v m m' finish none (some w) hi hl e =
      let same : m' ≡ (key, v) ∷ w = cc in
      ap (token_total t) same
      ∙ ap (λ s. share key t (total v.transfers) +₆₄ s) (hl w refl)
      ∙ sym (+₆₄_assoc (share key t (total v.transfers)) (token_total t m) (share token t n))
  merge_round token t key n v m m' finish (some us) later hi hl e =
      let same : m' ≡ (key, finish us) ∷ m = cc in
      let (k, h) = hi us refl in
      ap (token_total t) same
      ∙ ap (λ s. s +₆₄ token_total t m)
          (share_added key token t (total v.transfers) (total (finish us).transfers) n k h)
      ∙ swap_sum (share key t (total v.transfers)) (token_total t m) (share token t n)

  token_total-merge_token :
      (token t : TokenId) (a : AccountId) (n : ℤ) (change : HbarTransfer H → HbarTransfer H)
      (finish : List (HbarTransfer H) → TokenTransfer H) (m m' : List (TokenId × TokenTransfer H))
      → ((u : HbarTransfer H) → (change u).amount ≡ u.amount +₆₄ n)
      → ((us : List (HbarTransfer H)) → total (finish us).transfers ≡ total us)
      → merge_token token a change finish m ≡ some m'
      → token_total t m' ≡ token_total t m +₆₄ share token t n
  unfolding merge_token
  token_total-merge_token token t a n change finish [] m' adds keeps e = cc
  token_total-merge_token token t a n change finish ((key, v) ∷ m) m' adds keeps e =
      merge_round token t key n v m m' finish _ (merge_token token a change finish m)
        (λ us i.
          let (k, h) = merge_within (same_token key token) change a n v.transfers us adds i in
          (k, keeps us ∙ h))
        (λ w. token_total-merge_token token t a n change finish m w adds keeps) e

  token_total-append_token :
      (token t : TokenId) (new : HbarTransfer H) (decimal : Option ℕ)
      (m : List (TokenId × TokenTransfer H))
      → token_total t (append_token token new decimal m)
        ≡ token_total t m +₆₄ share token t new.amount
  unfolding append_token token_total total
  token_total-append_token token t new decimal [] = share_alone token t new.amount
  token_total-append_token token t new decimal ((key, v) ∷ m) =
      elim (Bool-cases (same_key key token)) [
        | inl e ↦ rw e (
            ap (λ s. s +₆₄ token_total t m)
              (share_added key token t (total v.transfers) (total (v.transfers ++ (new ∷ [])))
                new.amount (same_key-same_token key token e) (total-snoc v.transfers new))
            ∙ swap_sum (share key t (total v.transfers)) (token_total t m)
                (share token t new.amount))
        | inr e ↦ rw e (
            ap (λ s. share key t (total v.transfers) +₆₄ s)
              (token_total-append_token token t new decimal m)
            ∙ sym (
                +₆₄_assoc (share key t (total v.transfers)) (token_total t m)
                  (share token t new.amount)))
      ]

  token_total_added :
      (token t : TokenId) (a : AccountId) (new : HbarTransfer H)
      (change : HbarTransfer H → HbarTransfer H) (finish : List (HbarTransfer H) → TokenTransfer H)
      (decimal : Option ℕ) (m : List (TokenId × TokenTransfer H))
      → ((u : HbarTransfer H) → (change u).amount ≡ u.amount +₆₄ new.amount)
      → ((us : List (HbarTransfer H)) → total (finish us).transfers ≡ total us)
      → token_total t (or_append_token (merge_token token a change finish m) token new decimal m)
        ≡ token_total t m +₆₄ share token t new.amount
  token_total_added token t a new change finish decimal m adds keeps =
      elim (Option-cases (merge_token token a change finish m)) [
        | inl e ↦ rw e (token_total-append_token token t new decimal m)
        | inr (m', e) ↦
            rw e (token_total-merge_token token t a new.amount change finish m m' adds keeps e)
      ]

  total-approve_all :
      (approve : Bool) (us : List (HbarTransfer H)) → total (approve_all approve us) ≡ total us
  unfolding total
  total-approve_all approve [] = refl
  total-approve_all approve (u ∷ us) = ap (λ s. u.amount +₆₄ s) (total-approve_all approve us)

module _ {H N : Type 0} (tx : TransferTransaction H N) (token t : TokenId) (a : AccountId)
    (value : ℤ) where
  -- Adding a token transfer, with decimals only or with decimals, approval and hook call, adds its
  -- amount to the sum of that token, modulo 2 ^ 64 as an int64, and adds 0 to that of every token of
  -- other numbers, whichever entries and transfers the transaction holds.
  pub token_total-add_token_transfer :
      (decimal : ℕ) (decimals : Option ℕ) (approve : Bool) (hook_call : Option H)
      → (token_total t
            (add_token_transfer tx token a value decimals approve hook_call).token_transfers
          ≡ token_total t tx.token_transfers +₆₄ share token t value)
        × (token_total t (add_token_transfer_with_decimals tx token a value decimal).token_transfers
            ≡ token_total t tx.token_transfers +₆₄ share token t value)
  unfolding add_token_transfer add_token_transfer_with_decimals require_not_frozen
  token_total-add_token_transfer decimal decimals approve hook_call = (
    token_total_added token t a _ (add_value_hooked value hook_call) _ decimals tx.token_transfers
        (λ u. refl) (total-approve_all approve),
    token_total_added token t a _ (add_value value) _ (some decimal) tx.token_transfers (λ u. refl)
        (λ us. refl),
  )
