-- ===== src/Network/Configure.antt =====
-- sdk/managed_network.go and sdk/network.go: replacing the network's nodes, moving them to the other
-- transport, closing them, and the settings that reach the nodes.
use hiero_sdk_go.Base.{
  ℕ, zero, suc, ◌+◌, Bool, true, false, not, ◌&&◌, ◌||◌, Option, none, some, List, [], ◌∷◌, ◌++◌,
  if◌then◌else◌, get_elem?, bind,
}
use hiero_sdk_go.Base.Int.{ℤ, ◌+ℤ◌}
use hiero_sdk_go.Base.Text.{Text, text_eq}
use hiero_sdk_go.Node.{
  Node, ManagedNode, ManagedNodeAddress, new_node, get_address, get_key, is_healthy,
  set_min_backoff, set_max_backoff, to_secure, to_insecure, close, set_verify_certificate,
}
use hiero_sdk_go.Network.{Network, update, lookup}

-- `network[v._GetAddress()]` is there and has the node's key.
abbrev pub matches_incoming : (ℕ → Node) → ℕ → Option ℕ → Bool
matches_incoming store r none = false
matches_incoming store r (some v) = text_eq (get_key (store v)) (get_key (store r))

unfoldable pub is_kept : (ℕ → Node) → List (Text × ℕ) → ℕ → Bool
is_kept store incoming r =
    matches_incoming store r (lookup (get_address (store r).managed) incoming)

-- `_GetNodesToRemove`: the last index first. `i` is the index of the first node of the list.
unfoldable pub get_nodes_to_remove : (ℕ → Node) → List (Text × ℕ) → ℕ → List ℕ → List ℕ
get_nodes_to_remove store incoming i [] = []
get_nodes_to_remove store incoming i (r ∷ rs) =
    get_nodes_to_remove store incoming (i + 1) rs
    ++ (if is_kept store incoming r then [] else i ∷ [])

unfoldable pub erase_at : ℕ → List ℕ → List ℕ
erase_at i [] = []
erase_at zero (r ∷ rs) = rs
erase_at (suc i) (r ∷ rs) = r ∷ erase_at i rs

-- What the loop over the removed indices comes to.
pub data Removal : Type 0 where
  removed : (ℕ → Node) → List ℕ → Removal
  close_failed : (ℕ → Node) → Removal
  panicked : Removal

abbrev pub and_then : Removal → ((ℕ → Node) → List ℕ → Removal) → Removal
and_then (removed store nodes) f = f store nodes
and_then (close_failed store) f = close_failed store
and_then panicked f = panicked

-- One round: the node is closed, and cut out of the list unless closing failed.
pub remove_node : (ℕ → Bool) → (ℕ → Node) → ℕ → List ℕ → Option ℕ → Removal
remove_node fails store i nodes none = panicked
remove_node fails store i nodes (some r) =
    let (node, failed) = close (fails r) (store r) in
    if failed
    then close_failed (update store r node)
    else removed (update store r node) (erase_at i nodes)

unfoldable pub remove_nodes : (ℕ → Bool) → (ℕ → Node) → List ℕ → List ℕ → Removal
unfolding remove_node
remove_nodes fails store [] nodes = removed store nodes
remove_nodes fails store (i ∷ is) nodes =
    and_then (remove_node fails store i nodes (get_elem? nodes i))
      (λ store' nodes'. remove_nodes fails store' is nodes')

-- `newNodeKeys[key]`, and `newNodeValues[address]`.
unfoldable pub has_key : (ℕ → Node) → List ℕ → Text → Bool
has_key store [] key = false
has_key store (r ∷ rs) key = text_eq (get_key (store r)) key || has_key store rs key

unfoldable pub has_address : (ℕ → Node) → List ℕ → Text → Bool
has_address store [] address = false
has_address store (r ∷ rs) address =
    text_eq (get_address (store r).managed) address || has_address store rs address

-- The loop over the incoming map, in the order in which it is ranged over.
unfoldable pub add_nodes : (ℕ → Node) → List ℕ → List (Text × ℕ) → List ℕ → List ℕ
add_nodes store kept [] nodes = nodes
add_nodes store kept ((address, r) ∷ rest) nodes = add_nodes store kept rest (
    if has_key store kept (get_key (store r)) && has_address store kept address
    then nodes
    else nodes ++ (r ∷ []))

unfoldable pub put {ℓ} : {A : Type ℓ} → Text → A → List (Text × A) → List (Text × A)
put k v [] = (k, v) ∷ []
put k v ((j, w) ∷ m) = if text_eq j k then (j, v) ∷ m else (j, w) ∷ put k v m

abbrev pub or_empty : Option (List ℕ) → List ℕ
or_empty none = []
or_empty (some rs) = rs

-- `_CreateNetworkFromNodes`: the map so far and the healthy nodes so far. `now r` is the reading of the
-- clock for the node `r`.
unfoldable pub create_network_loop :
    (ℕ → Node) → (ℕ → ℤ) → List ℕ → List (Text × List ℕ) → List ℕ → List (Text × List ℕ) × List ℕ
create_network_loop store now [] network healthy = (network, healthy)
create_network_loop store now (r ∷ rs) network healthy =
    let key = get_key (store r) in
    create_network_loop store now rs (put key (or_empty (lookup key network) ++ (r ∷ [])) network)
      (if is_healthy (store r).managed (now r) then healthy ++ (r ∷ []) else healthy)

unfoldable pub create_network_from_nodes :
    (ℕ → Node) → (ℕ → ℤ) → List ℕ → List (Text × List ℕ) × List ℕ
create_network_from_nodes store now nodes = create_network_loop store now nodes [] []

unfoldable pub with_nodes : Network → (ℕ → Node) → (ℕ → ℤ) → List ℕ → Network
with_nodes mn store now nodes =
    let (network, healthy) = create_network_from_nodes store now nodes in
    record mn { store = store; nodes = nodes; network = network; healthy_nodes = healthy }

after_removal : Network → List (Text × ℕ) → (ℕ → ℤ) → Removal → Option (Network × Bool)
unfolding with_nodes
after_removal mn incoming now (removed store kept) =
    some (with_nodes mn store now (add_nodes store kept incoming kept), false)
after_removal mn incoming now (close_failed store) = some (record mn { store = store }, true)
after_removal mn incoming now panicked = none

-- `_SetNetwork`: `fails` tells for which nodes the library fails to close the connection. The flag
-- is the error; `none` is a panic.
unfoldable pub set_network :
    Network → (ℕ → Bool) → List (Text × ℕ) → (ℕ → ℤ) → Option (Network × Bool)
unfolding after_removal
set_network mn fails incoming now =
    after_removal mn incoming now
      (remove_nodes fails mn.store (get_nodes_to_remove mn.store incoming 0 mn.nodes) mn.nodes)

-- `_NewNode` fails where the address cannot be read.
abbrev is_read : Option ManagedNodeAddress → Bool
is_read none = false
is_read (some a) = true

abbrev has_address_of : Node → Bool
has_address_of node = is_read node.managed.address

-- The loop of `SetNetwork` over the map, in the order in which it is ranged over: a new node for each
-- address, at `fresh`, `fresh + 1`, and so on. `none` is the error of an address that cannot be read.
unfoldable pub new_nodes :
    (ℕ → ℤ) → ℤ → (ℕ → Node) → ℕ → List (Text × Text) → Option ((ℕ → Node) × List (Text × ℕ))
new_nodes now min_backoff store fresh [] = some (store, [])
new_nodes now min_backoff store fresh ((url, id) ∷ net) =
    let node = new_node (now fresh) id url min_backoff in
    if has_address_of node
    then (bind (new_nodes now min_backoff (update store fresh node) (fresh + 1) net)
        λ (store', incoming). some (store', (url, fresh) ∷ incoming))
    else none

set_new_nodes :
    Network → (ℕ → Bool) → (ℕ → ℤ) → Option ((ℕ → Node) × List (Text × ℕ)) → Option (Network × Bool)
set_new_nodes mn fails now none = some (mn, true)
set_new_nodes mn fails now (some (store, incoming)) =
    set_network (record mn { store = store }) fails incoming now

-- `SetNetwork` of the network, where the map has the account ID for each address. The clock is read
-- when a node is made, and once more when its health is looked at.
unfoldable pub network_set_network :
    Network → (ℕ → Bool) → (ℕ → ℤ) → (ℕ → ℤ) → ℕ → List (Text × Text) → Option (Network × Bool)
unfolding set_new_nodes new_nodes
network_set_network mn fails made now fresh net =
    set_new_nodes mn fails now (new_nodes made mn.min_backoff mn.store fresh net)

-- `_Close`: the healthy nodes one after the other, up to the first that fails.
unfoldable pub close_nodes : (ℕ → Bool) → (ℕ → Node) → List ℕ → (ℕ → Node) × Bool
close_nodes fails store [] = (store, false)
close_nodes fails store (r ∷ rs) =
    let (node, failed) = close (fails r) (store r) in
    let rest = close_nodes fails (update store r node) rs in
    if failed then (update store r node, true) else rest

unfoldable pub close_network : Network → (ℕ → Bool) → Network × Bool
unfolding close_nodes
close_network mn fails =
    let (store, failed) = close_nodes fails mn.store mn.healthy_nodes in
    (record mn { store = store }, failed)

-- `for _, node := range list { node.f() }` on shared nodes.
unfoldable pub each_node : (Node → Node) → (ℕ → Node) → List ℕ → ℕ → Node
each_node f store [] = store
each_node f store (r ∷ rs) = each_node f (update store r (f (store r))) rs

abbrev managed_with : (ManagedNode → ManagedNode) → Node → Node
managed_with f node = record node { managed = f node.managed }

unfoldable pub network_set_min_backoff : Network → ℤ → Network
network_set_min_backoff mn b = record mn {
  min_backoff = b;
  store = each_node (managed_with (λ m. set_min_backoff m b)) mn.store mn.healthy_nodes;
}

unfoldable pub network_set_max_backoff : Network → ℤ → Network
network_set_max_backoff mn b = record mn {
  max_backoff = b;
  store = each_node (managed_with (λ m. set_max_backoff m b)) mn.store mn.healthy_nodes;
}

unfoldable pub network_set_verify_certificate : Network → Bool → Network
network_set_verify_certificate mn verify = record mn {
  verify_certificate = verify;
  store = each_node (λ n. set_verify_certificate n verify) mn.store mn.nodes;
}

unfoldable pub set_max_nodes_per_transaction : Network → ℤ → Network
set_max_nodes_per_transaction mn max = record mn { max_nodes_per_transaction = some max }

unfoldable pub set_max_node_attempts : Network → ℤ → Network
set_max_node_attempts mn max = record mn { max_node_attempts = max }

unfoldable pub set_min_node_readmit_period : Network → ℤ → ℤ → Network
set_min_node_readmit_period mn now min = record mn {
  min_node_readmit_period = min;
  earliest_readmit_time = now +ℤ min;
}

unfoldable pub set_max_node_readmit_period : Network → ℤ → Network
set_max_node_readmit_period mn max = record mn { max_node_readmit_period = max }

-- The loop that replaces each node by the node that `_ToSecure` or `_ToInsecure` builds. The new
-- nodes are at `fresh`, `fresh + 1`, and so on.
unfoldable pub move_nodes : (Node → Node) → (ℕ → Node) → ℕ → List ℕ → (ℕ → Node) × List ℕ
move_nodes to store fresh [] = (store, [])
move_nodes to store fresh (r ∷ rs) =
    let (store', moved) = move_nodes to (update store fresh (to (store r))) (fresh + 1) rs in
    (store', fresh ∷ moved)

move_network : Network → (ℕ → ℤ) → ℕ → Bool → Network
unfolding with_nodes move_nodes
move_network mn now fresh secure =
    let (store, moved) =
      move_nodes (if secure then to_secure else to_insecure) mn.store fresh mn.nodes in
    record (with_nodes mn store now moved) { transport_security = secure }

abbrev same : Bool → Bool → Bool
same true b = b
same false b = not b

-- `_SetTransportSecurity`
unfoldable pub set_transport_security : Network → (ℕ → Bool) → (ℕ → ℤ) → ℕ → Bool → Network × Bool
unfolding move_network
set_transport_security mn fails now fresh secure =
    if same mn.transport_security secure
    then (mn, false)
    else let (closed, failed) = close_network mn fails in
      if failed then (closed, true) else (move_network closed now fresh secure, false)
