-- ===== src/Network/Tests.antt =====
-- sdk/managed_network.go and sdk/network.go at a concrete network.
use hiero_sdk_go.Base.{
  length, ℕ, ◌≡◌, ◌≢◌, refl, inl, true, false, none, some, List, [], ◌∷◌, arith, ◌==◌,
  if◌then◌else◌, All,
}
use hiero_sdk_go.Base.Int.{pos, negsuc, ◌+ℤ◌}
use hiero_sdk_go.Base.Text.{Text, text_eq_refl}
use hiero_sdk_go.Node.{ManagedNode, Node, get_address}
use hiero_sdk_go.Node.Backoff.{IsBounded}
use hiero_sdk_go.Network.{
  Network, contains, lookup, remove_first, network_increase_backoff, get_node, readmit_nodes,
}
use hiero_sdk_go.Network.Readmit.{IsSound, ReadmitOutcome, readmit_nodes-IsSound}
use hiero_sdk_go.Network.{at_most, get_node_account_ids_for_execute}
use hiero_sdk_go.Network.ForExecute.{get_node_account_ids_for_execute_lem}
use hiero_sdk_go.Network.Failover.{get_node-ne_failed}
use hiero_sdk_go.Network.Configure.{create_network_from_nodes, set_network, is_kept}
use hiero_sdk_go.Network.Lookup.{nodes_with, healthy_of, grouped, create_network_from_nodes_lem}
use hiero_sdk_go.Network.Requested.{IsServed, set_network_lem}

abbrev managed_at : ℕ → ManagedNode
managed_at host = record {
  address = some (record { address = some (host ∷ []); port = 50211 });
  current_backoff = pos 8;
  last_used = pos 0;
  use_count = pos 0;
  min_backoff = pos 8;
  max_backoff = pos 100;
  bad_grpc_status_count = pos 0;
  readmit_time = none;
}

-- Node 0 has account 3 at host "a", the others account 4 at host "b".
abbrev store_of : ℕ → Node
store_of r =
    if r == 0
    then record {
      managed = managed_at 97;
      account_id = 51 ∷ [];
      channel = true;
      verify_certificate = true;
    }
    else record {
      managed = managed_at 98;
      account_id = 52 ∷ [];
      channel = false;
      verify_certificate = true;
    }

abbrev two_nodes : Network
two_nodes = record {
  store = store_of;
  network = ((51 ∷ []), 0 ∷ []) ∷ ((52 ∷ []), 1 ∷ []) ∷ [];
  nodes = 0 ∷ 1 ∷ [];
  healthy_nodes = 0 ∷ 1 ∷ [];
  max_node_attempts = negsuc 0;
  min_backoff = pos 8;
  max_backoff = pos 100;
  max_nodes_per_transaction = none;
  transport_security = false;
  verify_certificate = false;
  min_node_readmit_period = pos 8;
  max_node_readmit_period = pos 100;
  earliest_readmit_time = pos 10;
}

two_nodes-IsSound : IsSound two_nodes
unfolding contains
two_nodes-IsSound = record {
  waits = (inl refl, (inl refl, tt));
  different = (refl, (refl, tt));
  known = (refl, (refl, tt));
}

first-IsBounded : IsBounded (store_of 0).managed
first-IsBounded = record {
  min_nonneg = refl;
  above_min = omega arith;
  below_max = omega arith;
  max_small = omega arith;
}

readmit_nodes-IsSound_example : ReadmitOutcome two_nodes (pos 50)
readmit_nodes-IsSound_example = readmit_nodes-IsSound two_nodes (pos 50) two_nodes-IsSound

abbrev failing : ℕ
failing = 0

abbrev picked : ℕ
picked = 1

get_node-ne_failed_example : picked ≢ failing
unfolding get_node readmit_nodes network_increase_backoff remove_first ◌+ℤ◌
get_node-ne_failed_example =
    get_node-ne_failed two_nodes (network_increase_backoff two_nodes 0 (pos 5)) failing picked
      (pos 5) (pos 6) (λ n. 0) two_nodes-IsSound first-IsBounded refl refl

create_network_from_nodes_example :
    (lookup (51 ∷ []) (create_network_from_nodes store_of (λ r. pos 5) (0 ∷ 1 ∷ 0 ∷ [])).0
      ≡ grouped none (nodes_with store_of (51 ∷ []) (0 ∷ 1 ∷ 0 ∷ [])))
    × ((create_network_from_nodes store_of (λ r. pos 5) (0 ∷ 1 ∷ 0 ∷ [])).1
        ≡ healthy_of store_of (λ r. pos 5) (0 ∷ 1 ∷ 0 ∷ []))
create_network_from_nodes_example =
    create_network_from_nodes_lem store_of (λ r. pos 5) (0 ∷ 1 ∷ 0 ∷ []) (51 ∷ [])

-- Node 0 goes, and node 1 stays.
abbrev incoming_second : List (Text × ℕ)
incoming_second = (get_address (store_of 1).managed, 1) ∷ []

set_network_example :
    (mn' : Network) × (set_network two_nodes (λ r. false) incoming_second (λ r. pos 5)
      ≡ some (mn', false))
    × All (λ r. is_kept mn'.store incoming_second r ≡ true) mn'.nodes
    × All (IsServed mn'.store mn'.nodes) incoming_second
unfolding lookup
set_network_example =
    set_network_lem two_nodes (λ r. false) incoming_second (λ r. pos 5) (λ r. refl)
      ((refl, same), tt)
  where
    same : lookup (get_address (store_of 1).managed) incoming_second ≡ some 1
    same = rw (text_eq_refl (get_address (store_of 1).managed)) refl

get_node_account_ids_for_execute_example :
    (mn' : Network) × (ids : List Text) × (get_node_account_ids_for_execute two_nodes
        (pos 50)
        (λ i. 0)
      ≡ some (mn', ids))
    × (length ids ≡ at_most mn'.max_nodes_per_transaction (length mn'.healthy_nodes))
get_node_account_ids_for_execute_example =
    get_node_account_ids_for_execute_lem two_nodes (pos 50) (λ i. 0) two_nodes-IsSound
