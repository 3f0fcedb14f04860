-- ===== src/Network/ForExecute.antt =====
-- sdk/network.go: the account IDs of the nodes that a request is sent to.
use hiero_sdk_go.Base.{
  ℕ, zero, suc, ◌+◌, ◌≤◌, ◌≡◌, refl, ap, ◌∙◌, Option, none, some, List, [], ◌∷◌, arith, length,
  length-set, get_elem?, get_elem?-some, set,
}
use hiero_sdk_go.Base.Int.{ℤ, pos, negsuc}
use hiero_sdk_go.Base.Text.{Text}
use hiero_sdk_go.Node.{Node}
use hiero_sdk_go.Network.{
  Network, at_most, get_number_of_nodes_for_transaction, swap_with, swap, shuffle, account_ids,
  get_node_account_ids_for_execute,
}
use hiero_sdk_go.Network.Readmit.{IsSound, readmit_nodes-IsSound}

length-swap_with :
    (rs : List ℕ) (i j : ℕ) (a b : Option ℕ) → length (swap_with rs i j a b) ≡ length rs
length-swap_with rs i j none b = refl
length-swap_with rs i j (some a) none = refl
length-swap_with rs i j (some a) (some b) = length-set (set rs i b) j a ∙ length-set rs i b

length-shuffle : (k i : ℕ) (draw : ℕ → ℕ) (rs : List ℕ) → length (shuffle k i draw rs) ≡ length rs
unfolding shuffle swap
length-shuffle zero i draw rs = refl
length-shuffle (suc k) i draw rs =
    length-shuffle k (i + 1) draw _
    ∙ length-swap_with rs i (draw i) (get_elem? rs i) (get_elem? rs (draw i))

at_most_le : (max : Option ℤ) (n : ℕ) → at_most max n ≤ n
at_most_le none n = omega arith
at_most_le (some (pos m)) n = ground arith
at_most_le (some (negsuc m)) n = omega arith

account_ids-some :
    (store : ℕ → Node) (rs : List ℕ) (k i : ℕ)
    → i + k ≤ length rs
    → (ids : List Text) × (account_ids store rs k i ≡ some ids) × (length ids ≡ k)
unfolding account_ids
account_ids-some store rs zero i h = ([], refl, refl)
account_ids-some store rs (suc k) i h =
    let (r, e) = get_elem?-some rs i (omega arith) in
    let (ids, e', count) = account_ids-some store rs k (i + 1) (omega arith) in
    ((store r).account_id ∷ ids, rw (e, e') refl, ap suc count)

-- In a sound network the choice of nodes for a request does not panic, however the nodes are
-- shuffled, and gives as many account IDs as there are healthy nodes after readmission, or as the
-- maximal count of nodes for a transaction, if that is less.
pub get_node_account_ids_for_execute_lem :
    (mn : Network) (now : ℤ) (draw : ℕ → ℕ)
    → IsSound mn
    → (mn' : Network) × (ids : List Text) × (get_node_account_ids_for_execute mn now draw
        ≡ some (mn', ids))
      × (length ids ≡ at_most mn'.max_nodes_per_transaction (length mn'.healthy_nodes))
unfolding get_node_account_ids_for_execute get_number_of_nodes_for_transaction
get_node_account_ids_for_execute_lem mn now draw h =
    let o = readmit_nodes-IsSound mn now h in
    let n = length o.after.healthy_nodes in
    let shuffled = shuffle n 0 draw o.after.healthy_nodes in
    let fits : 0 + at_most o.after.max_nodes_per_transaction n ≤ length shuffled = omega (
      arith,
      at_most_le o.after.max_nodes_per_transaction n,
      length-shuffle n 0 draw o.after.healthy_nodes,
    ) in
    let (ids, e, count) =
      account_ids-some o.after.store shuffled (at_most o.after.max_nodes_per_transaction n) 0
        fits in
    (o.after, ids, rw (o.returns, e) refl, count)
