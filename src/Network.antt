-- ===== src/Network.antt =====
-- sdk/managed_network.go and sdk/network.go: the nodes that a client knows, which of them are
-- healthy, and which node serves a request. Nodes are shared by pointer, so they live in a store and
-- the lists hold references. Configuring the network is in Network/Configure.
pub mod Readmit
pub mod Failover
pub mod Configure
pub mod Lookup
pub mod Replace
pub mod Requested
pub mod ForExecute
mod Tests
use hiero_sdk_go.Base.{
  ℕ, zero, suc, ◌+◌, ◌*◌, ◌<◌, Bool, true, false, not, ◌&&◌, Option, none, some, List, [], ◌∷◌,
  ◌++◌, map, ltb, leb, ◌==◌, if◌then◌else◌, length, get_elem?, set, bind,
}
use hiero_sdk_go.Base.Int.{ℤ, pos, negsuc, ◌+ℤ◌, ltb_ℤ}
use hiero_sdk_go.Base.Text.{Text, text_eq}
use hiero_sdk_go.Node.{Node, ManagedNode, second, hour, increase_backoff, is_healthy, get_key}

-- A node's reference is a number; two references are the same pointer where the numbers are equal.
pub record Network : Type 0 where
  pub store : ℕ → Node
  pub network : List (Text × List ℕ)
  pub nodes : List ℕ
  pub healthy_nodes : List ℕ
  pub max_node_attempts : ℤ
  pub min_backoff : ℤ
  pub max_backoff : ℤ
  pub max_nodes_per_transaction : Option ℤ
  pub transport_security : Bool
  pub verify_certificate : Bool
  pub min_node_readmit_period : ℤ
  pub max_node_readmit_period : ℤ
  pub earliest_readmit_time : ℤ

-- `_NewManagedNetwork`; `year_1` is the zero `time.Time`.
unfoldable pub new_network : ℤ → (ℕ → Node) → Network
new_network year_1 store = record {
  store = store;
  network = [];
  nodes = [];
  healthy_nodes = [];
  max_node_attempts = negsuc 0;
  min_backoff = pos (8 * second);
  max_backoff = pos hour;
  max_nodes_per_transaction = none;
  transport_security = false;
  verify_certificate = false;
  min_node_readmit_period = pos (8 * second);
  max_node_readmit_period = pos hour;
  earliest_readmit_time = year_1;
}

abbrev pub update : (ℕ → Node) → ℕ → Node → ℕ → Node
update store r node q = if q == r then node else store q

unfoldable pub contains : List ℕ → ℕ → Bool
contains [] r = false
contains (q ∷ qs) r = if r == q then true else contains qs r

abbrev pub readmit_time : (ℕ → Node) → ℕ → Option ℤ
readmit_time store r = (store r).managed.readmit_time

-- One round of the search for the next readmit time.
abbrev pub earlier : ℤ → Option ℤ → ℤ → ℤ
earlier now none next = next
earlier now (some t) next = if ltb_ℤ now t && ltb_ℤ t next then t else next

unfoldable pub next_readmit_time : (ℕ → Node) → ℤ → List ℕ → ℤ → ℤ
next_readmit_time store now [] next = next
next_readmit_time store now (r ∷ rs) next =
    next_readmit_time store now rs (earlier now (readmit_time store r) next)

-- `!node._GetReadmitTime().After(now)`; `none` is the panic on a nil time.
abbrev pub is_due : ℤ → Option ℤ → Option Bool
is_due now none = none
is_due now (some t) = some (not (ltb_ℤ now t))

abbrev pub admit : List ℕ → ℕ → Option Bool → Option (List ℕ)
admit healthy r none = none
admit healthy r (some true) = some (healthy ++ (r ∷ []))
admit healthy r (some false) = some healthy

-- The loop `outer`: the healthy nodes so far, and the nodes still to look at.
unfoldable pub readmit_loop : (ℕ → Node) → ℤ → List ℕ → List ℕ → Option (List ℕ)
readmit_loop store now [] healthy = some healthy
readmit_loop store now (r ∷ rs) healthy =
    bind
      (if contains healthy r
        then some healthy
        else admit healthy r (is_due now (readmit_time store r)))
      (readmit_loop store now rs)

-- `_ReadmitNodesLocked`; `none` is a panic.
abbrev pub with_healthy : Network → Option (List ℕ) → Option Network
with_healthy mn none = none
with_healthy mn (some healthy) = some (record mn { healthy_nodes = healthy })

abbrev pub latest : ℤ → ℤ → ℤ
latest a b = if ltb_ℤ a b then b else a

unfoldable pub readmit_nodes : Network → ℤ → Option Network
readmit_nodes mn now =
    if ltb_ℤ now mn.earliest_readmit_time
    then some mn
    else let next = next_readmit_time mn.store now mn.nodes (now +ℤ mn.max_node_readmit_period) in
      let mn' = record mn {
        earliest_readmit_time = latest next (now +ℤ mn.min_node_readmit_period);
      } in
      with_healthy mn' (readmit_loop mn'.store now mn'.nodes mn'.healthy_nodes)

unfoldable pub remove_first : ℕ → List ℕ → List ℕ
remove_first r [] = []
remove_first r (q ∷ qs) = if r == q then qs else q ∷ remove_first r qs

-- `_Network._IncreaseBackoff`
unfoldable pub network_increase_backoff : Network → ℕ → ℤ → Network
network_increase_backoff mn r now =
    let node = mn.store r in
    record mn {
      store = update mn.store r (record node { managed = increase_backoff node.managed now });
      healthy_nodes = remove_first r mn.healthy_nodes;
    }

-- `_GetNode`: `pick` is the random index below the count of healthy nodes that the library draws.
-- `none` is the panic without a healthy node, or on a nil readmit time.
unfoldable pub get_node : Network → ℤ → (ℕ → ℕ) → Option (Network × ℕ)
get_node mn now pick =
    bind (readmit_nodes mn now)
      λ mn'. bind (get_elem? mn'.healthy_nodes (pick (length mn'.healthy_nodes))) λ r. some (mn', r)

unfoldable pub lookup {ℓ} : {A : Type ℓ} → Text → List (Text × A) → Option A
lookup k [] = none
lookup k ((j, v) ∷ m) = if text_eq j k then some v else lookup k m

abbrev pub first : List ℕ → Option ℕ
first [] = none
first (r ∷ rs) = some r

-- `_GetNodeForAccountID`. An entry of the map is never empty.
unfoldable pub get_node_for_account_id : Network → Text → Option ℕ
get_node_for_account_id mn id = bind (lookup id mn.network) first

abbrev pub at_most : Option ℤ → ℕ → ℕ
at_most none n = n
at_most (some (pos m)) n = if ltb m n then m else n
at_most (some (negsuc m)) n = 0

-- `_GetNumberOfNodesForTransaction`; a negative count, at which every loop ends at once, is 0.
unfoldable pub get_number_of_nodes_for_transaction : Network → ℤ → Option (Network × ℕ)
get_number_of_nodes_for_transaction mn now =
    bind (readmit_nodes mn now)
      λ mn'. some (mn', at_most mn'.max_nodes_per_transaction (length mn'.healthy_nodes))

abbrev pub swap_with : List ℕ → ℕ → ℕ → Option ℕ → Option ℕ → List ℕ
swap_with rs i j (some a) (some b) = set (set rs i b) j a
swap_with rs i j _ _ = rs

unfoldable pub swap : List ℕ → ℕ → ℕ → List ℕ
swap rs i j = swap_with rs i j (get_elem? rs i) (get_elem? rs j)

-- The shuffle: `draw i` is the random index, at most `i`, of round `i`; `k` rounds are left.
unfoldable pub shuffle : ℕ → ℕ → (ℕ → ℕ) → List ℕ → List ℕ
shuffle zero i draw rs = rs
shuffle (suc k) i draw rs = shuffle k (i + 1) draw (swap rs i (draw i))

-- The loop that takes the first `k` account IDs from index `i` on; `none` is an index out of range.
unfoldable pub account_ids : (ℕ → Node) → List ℕ → ℕ → ℕ → Option (List Text)
account_ids store rs zero i = some []
account_ids store rs (suc k) i =
    bind (get_elem? rs i)
      λ r. bind (account_ids store rs k (i + 1)) λ ids. some ((store r).account_id ∷ ids)

unfoldable pub get_node_account_ids_for_execute :
    Network → ℤ → (ℕ → ℕ) → Option (Network × List Text)
get_node_account_ids_for_execute mn now draw =
    bind (get_number_of_nodes_for_transaction mn now) λ (mn', k).
      let shuffled = shuffle (length mn'.healthy_nodes) 0 draw mn'.healthy_nodes in
      bind (account_ids mn'.store shuffled k 0) λ ids. some (mn', ids)
