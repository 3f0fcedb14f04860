-- ===== src/Execute/Tests.antt =====
-- sdk/executable.go at concrete executions.
use hiero_sdk_go.Base.{
  ℕ, zero, suc, ◌≤◌, refl, inl, true, false, none, some, [], ◌∷◌, arith, length, All,
}
use hiero_sdk_go.Base.Int.{pos, negsuc, ◌≤ℤ◌}
use hiero_sdk_go.Base.Int64.{double}
use hiero_sdk_go.Base.Text.{Text}
use hiero_sdk_go.Node.{Node}
use hiero_sdk_go.LockableSlice.{LockableSlice}
use hiero_sdk_go.Network.{Network, contains}
use hiero_sdk_go.Network.Readmit.{IsSound}
use hiero_sdk_go.Execute.{Executable, get_min_backoff, get_max_backoff, plain_query, Statuses}
use hiero_sdk_go.Execute.Loop.{
  Answer, answered, Attempt, Client, max_attempts_of, execute_attempts, AddressBook, execute,
}
use hiero_sdk_go.Execute.Network.{execute_attempts-IsSound}
use hiero_sdk_go.Execute.Outcomes.{length-execute}
use hiero_sdk_go.Execute.Delays.{execute_delays}

abbrev no_items : LockableSlice Text
no_items = record { slice = []; locked = false; index = 0 }

abbrev query : Executable
query = record {
  is_transaction = false;
  query_kind = plain_query;
  regenerates = false;
  transaction_ids = no_items;
  signed_transactions = no_items;
  node_account_ids = no_items;
  max_backoff = some (pos 100);
  min_backoff = some (pos 8);
  grpc_deadline = none;
  request_timeout = some (pos 1000);
  max_retry = pos 10;
}

abbrev client : Client
client = record {
  max_attempts = some (pos 3);
  request_timeout = pos 500;
  is_batched = false;
  rst_stream = λ t. false;
  hash = λ t. t;
}

abbrev store_of : ℕ → Node
store_of r = record {
  managed = record {
    address = none;
    current_backoff = pos 8;
    last_used = pos 0;
    use_count = pos 0;
    min_backoff = pos 8;
    max_backoff = pos 100;
    bad_grpc_status_count = pos 0;
    readmit_time = none;
  };
  account_id = 51 ∷ [];
  channel = true;
  verify_certificate = true;
}

abbrev one_node : Network
one_node = record {
  store = store_of;
  network = ((51 ∷ []), 0 ∷ []) ∷ [];
  nodes = 0 ∷ [];
  healthy_nodes = 0 ∷ [];
  max_node_attempts = negsuc 0;
  min_backoff = pos 8;
  max_backoff = pos 100;
  max_nodes_per_transaction = none;
  transport_security = false;
  verify_certificate = false;
  min_node_readmit_period = pos 8;
  max_node_readmit_period = pos 100;
  earliest_readmit_time = pos 1000;
}

one_node-IsSound : IsSound one_node
unfolding contains
one_node-IsSound = record { waits = (inl refl, tt); different = (refl, tt); known = (refl, tt) }

abbrev code : ℕ → Statuses
code s = record { precheck = s; receipt = 0; is_cost_answer = false }

-- No update of the address book brings anything.
abbrev no_books : ℕ → AddressBook
no_books n = record {
  entries = none;
  made = λ r. pos 0;
  now = λ r. pos 0;
  fresh = 0;
  fails = λ r. false;
}

-- The node is busy in the first attempt, and answers 7 in the later ones.
abbrev answer_of : ℕ → Answer ℕ
answer_of zero = answered (code 12) 0
answer_of (suc k) = answered (code 0) 7

abbrev world : ℕ → Attempt ℕ
world k = record {
  elapsed = pos k;
  picked_at = pos k;
  request = some none;
  pick = λ n. 0;
  used_at = pos k;
  checked_at = pos k;
  answer = answer_of k;
  failed_at = pos k;
  fresh_id = none;
}

execute_attempts-IsSound_example : IsSound (execute_attempts client world query one_node).0.network
execute_attempts-IsSound_example =
    execute_attempts-IsSound client world query one_node one_node-IsSound

length-execute_example :
    length (execute client world no_books query one_node).0.calls ≤ max_attempts_of client query
length-execute_example = length-execute client world no_books query one_node

execute_delays_example :
    All
      (λ d. (pos 8 ≤ℤ d) × (d ≤ℤ double (pos 100)))
      (execute client world no_books query one_node).0.delays
unfolding get_min_backoff get_max_backoff
execute_delays_example =
    execute_delays client world no_books query one_node (omega arith) (omega arith) (omega arith)
