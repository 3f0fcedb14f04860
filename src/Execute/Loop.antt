-- ===== src/Execute/Loop.antt =====
-- sdk/executable.go: `_Execute`, the loop over the attempts of a request. What an attempt meets is
-- an argument: the clocks, the random index of a node, the connection, and the the request that is built, and the answer. So
-- is what the query for the address book gives that a return makes where a node answered
-- INVALID_NODE_ACCOUNT. Logging and the texts around an error are left out.
use hiero_sdk_go.Base.{
  ℕ, zero, suc, ◌+◌, Bool, true, false, not, Option, none, some, List, [], ◌∷◌, if◌then◌else◌, bind,
}
use hiero_sdk_go.Base.Int.{ℤ, pos, negsuc, ltb_ℤ}
use hiero_sdk_go.Base.Int64.{double}
use hiero_sdk_go.Base.Text.{Text}
use hiero_sdk_go.Node.{ManagedNode, in_use, is_healthy, decrease_backoff}
use hiero_sdk_go.Network.{
  Network, update, get_node, get_node_for_account_id, network_increase_backoff,
}
use hiero_sdk_go.Network.Configure.{network_set_network}
use hiero_sdk_go.Execute.{
  ExecutionState, retry, finished, error, expired, retry_with_another_node, Executable, or_default,
  get_max_backoff, get_min_backoff, get_node_account_ids, get_node_account_id, advance_request,
  regenerate_id, Reply, map_response, get_log_id_panics, Statuses, should_retry, map_status_error,
  GrpcError, executable_default_retry_handler,
}

-- What comes of a call: no channel to the node, an error of the call, or a response of the library's
-- type `R` with its statuses, and its text of the error of opening a channel.
pub data Answer (R : Type 0) : Type 0 where
  no_channel : Text → Answer R
  call_failed : GrpcError → Answer R
  answered : Statuses → R → Answer R

-- `elapsed` is the time since the start; the others are readings of the clock, in their order.
-- `request` has the signed bytes of what `makeRequest` builds: none is its panic, and `some none` a nil
-- transaction or a query.
pub record Attempt (R : Type 0) : Type 0 where
  pub elapsed : ℤ
  pub picked_at : ℤ
  pub request : Option (Option Text)
  pub pick : ℕ → ℕ
  pub used_at : ℤ
  pub checked_at : ℤ
  pub answer : Answer R
  pub failed_at : ℤ
  pub fresh_id : Option Text

-- What the query for the address book gives: the account ID for each address that the book has, in the
-- order in which the map is ranged over, or none where it fails or has no node. The clock, where the
-- new nodes are put, and the connections that fail to close are of the time of the update.
pub record AddressBook : Type 0 where
  pub entries : Option (List (Text × Text))
  pub made : ℕ → ℤ
  pub now : ℕ → ℤ
  pub fresh : ℕ
  pub fails : ℕ → Bool

abbrev pub network_of : Network → Option (Network × Bool) → Option Network
network_of mn none = none
network_of mn (some (mn', failed)) = some mn'

abbrev update_with : AddressBook → Network → Option (List (Text × Text)) → Option Network
update_with book mn none = some mn
update_with book mn (some entries) =
    network_of mn (network_set_network mn book.fails book.made book.now book.fresh entries)

-- `_UpdateAddressBook`, with `_SetNetworkFromAddressBook`; none is a panic.
unfoldable pub update_address_book : AddressBook → Network → Option Network
update_address_book book mn = update_with book mn book.entries

-- The deferred calls, so many of them.
unfoldable pub update_address_books : (ℕ → AddressBook) → ℕ → Network → Option Network
update_address_books books zero mn = some mn
update_address_books books (suc n) mn =
    bind (update_address_book (books n) mn) λ mn'. update_address_books books n mn'

-- The client, whose attempts and timeout come before the request's, and what is the same in every
-- attempt.
pub record Client : Type 0 where
  pub max_attempts : Option ℤ
  pub request_timeout : ℤ
  pub is_batched : Bool
  pub rst_stream : Text → Bool
  pub hash : Text → Text

pub data Failure : Type 0 where
  timed_out batched_and_not_batch : Failure
  invalid_node_account_id : Text → Failure
  no_connection : Text → Failure
  grpc : GrpcError → Failure
  status : ℕ → Failure
  unknown_error panicked : Failure

pub data Outcome (R : Type 0) : Type 0 where
  returned : Reply R → Outcome R
  failed : Failure → Outcome R

-- `calls` and `delays` record, the latest first, the nodes that were called and how long the
-- execution slept; `deferred` counts the updates of the address book that wait for the return.
pub record Run : Type 0 where
  pub executable : Executable
  pub network : Network
  pub current_backoff : ℤ
  pub err_persistent : Option Failure
  pub calls : List ℕ
  pub delays : List ℤ
  pub deferred : ℕ

pub data Step (R : Type 0) : Type 0 where
  stop : Outcome R → Run → Step R
  again : Run → Step R

abbrev pub advanced : Run → Run
advanced run = record run { executable = advance_request run.executable }

abbrev pub delayed : Run → Run
delayed run = record run { delays = run.current_backoff ∷ run.delays }

abbrev pub failing : Failure → Run → Run
failing f run = record run { err_persistent = some f }

abbrev pub with_managed : Network → ℕ → ManagedNode → Network
with_managed mn r m = record mn { store = update mn.store r (record (mn.store r) { managed = m }) }

abbrev pub use_node : {R : Type 0} → Attempt R → ℕ → Run → Run
use_node a r run = record run {
  network = with_managed run.network r (in_use (run.network.store r).managed a.used_at);
}

abbrev pub punish : {R : Type 0} → Attempt R → ℕ → Run → Run
punish a r run = record run { network = network_increase_backoff run.network r a.failed_at }

abbrev pub reward : ℕ → Run → Run
reward r run = record run {
  network = with_managed run.network r (decrease_backoff (run.network.store r).managed);
}

-- The delay before the attempt of that number: the current backoff is doubled while it is at most
-- the maximum, and not in the first attempt.
unfoldable pub backoff_of_attempt : ℕ → ℤ → ℤ → ℤ
backoff_of_attempt zero max current = current
backoff_of_attempt (suc k) max current = if ltb_ℤ max current then current else double current

-- `defer client._UpdateAddressBook()`
abbrev pub deferring : Run → Run
deferring run = record run { deferred = run.deferred + 1 }

abbrev pub timeout_of : Client → Executable → ℤ
timeout_of client e = or_default e.request_timeout client.request_timeout

abbrev pub count_of : ℤ → ℕ
count_of (pos n) = n
count_of (negsuc n) = 0

unfoldable pub max_attempts_of : Client → Executable → ℕ
max_attempts_of client e = count_of (or_default client.max_attempts e.max_retry)

abbrev pub built : Option (Option Text) → Option Text
built none = none
built (some request) = request

abbrev pub is_none : Option (Option Text) → Bool
is_none none = true
is_none (some request) = false

module _ {R : Type 0} where
  -- The transaction expired: with a new ID the loop goes on.
  abbrev pub regenerated : ℕ → Run → Option (Executable × Bool) → Step R
  regenerated s run none = stop (failed panicked) run
  regenerated s run (some (e, true)) = again (record run { executable = e })
  regenerated s run (some (e, false)) = stop (failed (status s)) (record run { executable = e })

  abbrev pub mapped : Run → Option (Executable × Reply R) → Step R
  mapped run none = stop (failed panicked) run
  mapped run (some (e, reply)) = stop (returned reply) (record run { executable = e })

  -- The switch on the execution state.
  unfoldable pub after_answer : Client → Attempt R → ℕ → ℕ → R → Run → ExecutionState → Step R
  after_answer client a r s response run retry = again (delayed (failing (status s) run))
  after_answer client a r s response run expired =
      if run.executable.is_transaction
      then regenerated s run (regenerate_id run.executable a.fresh_id)
      else stop (failed (status s)) run
  after_answer client a r s response run error = stop (failed (status s)) run
  after_answer client a r s response run finished = mapped run (
      map_response client.hash run.executable (run.network.store r).account_id (built a.request)
        response)
  after_answer client a r s response run retry_with_another_node =
      again (punish a r (deferring (advanced (failing (status s) run))))

  -- The channel, the call and its error.
  unfoldable pub after_call : Client → Attempt R → ℕ → Run → Answer R → Step R
  after_call client a r run (no_channel err) =
      again (failing (no_connection err) (advanced (punish a r run)))
  after_call client a r run (call_failed err) =
      let called = failing (grpc err) (advanced (record run { calls = r ∷ run.calls })) in
      if executable_default_retry_handler client.rst_stream err
      then again (punish a r called)
      else stop (failed (grpc err)) called
  after_call client a r run (answered s response) =
      let called = reward r (record run { calls = r ∷ run.calls }) in
      let e = run.executable in
      after_answer client a r (map_status_error e.is_transaction e.query_kind s) response called
        (should_retry e.is_transaction e.query_kind s)

  -- The node is in use; one that is not healthy is waited for.
  unfoldable pub with_node : Client → Attempt R → Run → ℕ → Step R
  with_node client a run r =
      let used = use_node a r run in
      if get_log_id_panics run.executable
      then stop (failed panicked) used
      else if is_healthy (used.network.store r).managed a.checked_at
      then after_call client a r used a.answer
      else again (delayed used)

  abbrev pub given_node : Client → Attempt R → Run → Text → Option ℕ → Step R
  given_node client a run id none = stop (failed (invalid_node_account_id id)) run
  given_node client a run id (some r) = with_node client a run r

  abbrev pub given_id : Client → Attempt R → Run → Option Text → Step R
  given_id client a run none = stop (failed panicked) run
  given_id client a run (some id) =
      given_node client a run id (get_node_for_account_id run.network id)

  abbrev pub picked_node : Client → Attempt R → Run → Option (Network × ℕ) → Step R
  picked_node client a run none = stop (failed panicked) run
  picked_node client a run (some (mn, r)) = with_node client a (record run { network = mn }) r

  unfoldable pub choose_node : Client → Attempt R → Run → Option (List Text) → Step R
  choose_node client a run none = stop (failed panicked) run
  choose_node client a run (some []) =
      picked_node client a run (get_node run.network a.picked_at a.pick)
  choose_node client a run (some (id ∷ ids)) =
      given_id client a run (get_node_account_id run.executable)

  unfoldable pub attempt : Client → Attempt R → ℕ → Run → Step R
  attempt client a k run =
      let run' = record run {
        current_backoff = backoff_of_attempt k (get_max_backoff run.executable) run.current_backoff;
      } in
      if not (ltb_ℤ a.elapsed (timeout_of client run.executable))
      then stop (failed timed_out) run
      else if is_none a.request
      then stop (failed panicked) run'
      else if client.is_batched
      then stop (failed batched_and_not_batch) run'
      else choose_node client a run' (get_node_account_ids run.executable)

  abbrev pub exhausted : Option Failure → Outcome R
  exhausted none = failed unknown_error
  exhausted (some f) = failed f

  abbrev pub continue : Step R → (Run → Run × Outcome R) → Run × Outcome R
  continue (stop o run) rest = (run, o)
  continue (again run) rest = rest run

  -- The loop, with `left` attempts left of which the next has number `k`.
  unfoldable pub attempts : Client → (ℕ → Attempt R) → ℕ → ℕ → Run → Run × Outcome R
  attempts client world zero k run = (run, exhausted run.err_persistent)
  attempts client world (suc left) k run =
      continue (attempt client (world k) k run) (attempts client world left (k + 1))

  -- The attempts of `_Execute`, up to a return.
  unfoldable pub execute_attempts :
      Client → (ℕ → Attempt R) → Executable → Network → Run × Outcome R
  execute_attempts client world e mn = attempts client world (max_attempts_of client e) 0 (record {
    executable = e;
    network = mn;
    current_backoff = get_min_backoff e;
    err_persistent = none;
    calls = [];
    delays = [];
    deferred = 0;
  })

  -- The deferred calls, and the panic of one of them.
  abbrev pub after_deferred : Run → Outcome R → Option Network → Run × Outcome R
  after_deferred run o none = (run, failed panicked)
  after_deferred run o (some mn) = (record run { network = mn }, o)

  -- `_Execute`
  unfoldable pub execute :
      Client → (ℕ → Attempt R) → (ℕ → AddressBook) → Executable → Network → Run × Outcome R
  execute client world books e mn =
      let (run, o) = execute_attempts client world e mn in
      after_deferred run o (update_address_books books run.deferred run.network)
