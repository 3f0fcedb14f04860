-- ===== src/Node/Tests.antt =====
-- sdk/managed_node.go, sdk/managed_node_address.go and sdk/node.go at concrete nodes.
use hiero_sdk_go.Base.{
  ◌+◌, ◌*◌, ◌^◌, ◌≡◌, refl, true, false, none, some, [], ◌∷◌, arith, length, min,
}
use hiero_sdk_go.Base.Int.{pos}
use hiero_sdk_go.Base.Text.{Text}
use hiero_sdk_go.Node.{
  ManagedNodeAddress, ManagedNode, Node, no_space, managed_node_address_from_string, address_string,
  increase_backoff, is_healthy, to_secure,
}
use hiero_sdk_go.Node.Backoff.{IsBounded, fail_at, fail_at-doubles, to_secure-increase_backoff}
use hiero_sdk_go.Node.Address.{managed_node_address_from_string-address_string}

-- "h.io:50211"
abbrev host : Text
host = 104 ∷ 46 ∷ 105 ∷ 111 ∷ []

abbrev plain : ManagedNodeAddress
plain = record { address = some host; port = 50211 }

abbrev managed : ManagedNode
managed = record {
  address = some plain;
  current_backoff = pos 8;
  last_used = pos 0;
  use_count = pos 0;
  min_backoff = pos 8;
  max_backoff = pos 100;
  bad_grpc_status_count = pos 2;
  readmit_time = none;
}

abbrev node : Node
node = record {
  managed = managed;
  account_id = 51 ∷ [];
  channel = false;
  verify_certificate = true;
}

managed-IsBounded : IsBounded managed
managed-IsBounded = record {
  min_nonneg = refl;
  above_min = omega arith;
  below_max = omega arith;
  max_small = omega arith;
}

fail_at-doubles_example :
    ((fail_at managed (pos 5 ∷ pos 9 ∷ [])).current_backoff
      ≡ pos (min (2 ^ length (pos 5 ∷ pos 9 ∷ []) * 8) 100))
    × ((fail_at managed (pos 5 ∷ pos 9 ∷ [])).bad_grpc_status_count
        ≡ pos (2 + length (pos 5 ∷ pos 9 ∷ [])))
fail_at-doubles_example =
    fail_at-doubles (pos 5 ∷ pos 9 ∷ []) managed 8 100 2 refl refl (omega arith) (omega arith) refl
      (omega arith)

to_secure-increase_backoff_example :
    ((increase_backoff (to_secure node).managed (pos 5)).current_backoff ≡ pos 0)
    × (is_healthy (increase_backoff (to_secure node).managed (pos 5)) (pos 6) ≡ true)
to_secure-increase_backoff_example =
    to_secure-increase_backoff node 7 (pos 5) (pos 6) refl (omega arith) refl

managed_node_address_from_string-address_string_example :
    managed_node_address_from_string (address_string plain) ≡ some plain
unfolding no_space
managed_node_address_from_string-address_string_example =
    managed_node_address_from_string-address_string host 50211 refl refl (omega arith)
