-- ===== src/Execute.antt =====
-- sdk/executable.go, with `shouldRetry`, `advanceRequest` and `regenerateID` of sdk/transaction.go
-- and sdk/query.go: what a request is executed with. The loop over its attempts is in Execute/Loop.
pub mod Loop
pub mod Changes
pub mod Network
pub mod Delays
pub mod Outcomes
mod Tests
use hiero_sdk_go.Base.{
  ℕ, zero, suc, ◌+◌, ◌*◌, Bool, true, false, not, ◌&&◌, ◌||◌, Option, none, some, List, [], ◌∷◌,
  ltb, ◌==◌, if◌then◌else◌, bind,
}
use hiero_sdk_go.Base.Int.{ℤ, pos, ltb_ℤ}
use hiero_sdk_go.Base.Text.{Text}
use hiero_sdk_go.Node.{second}
use hiero_sdk_go.LockableSlice.{
  LockableSlice, push, set_locked, advance, set_item, get_next, get_current,
}

pub data ExecutionState : Type 0 where
  retry finished error expired retry_with_another_node : ExecutionState

-- The queries that have a `shouldRetry` and a `mapStatusError` of their own, and the others.
pub data QueryKind : Type 0 where
  plain_query receipt_query record_query : QueryKind

-- What a transaction or a query holds for its execution. `is_transaction` tells them apart, and
-- `query_kind` is not read for a transaction; `regenerates` is `regenerateTransactionID`, and a query has no signed transactions. Account IDs
-- and transaction IDs are held as their texts. Log levels are left out.
pub record Executable : Type 0 where
  pub is_transaction : Bool
  pub query_kind : QueryKind
  pub regenerates : Bool
  pub transaction_ids : LockableSlice Text
  pub signed_transactions : LockableSlice Text
  pub node_account_ids : LockableSlice Text
  pub max_backoff : Option ℤ
  pub min_backoff : Option ℤ
  pub grpc_deadline : Option ℤ
  pub request_timeout : Option ℤ
  pub max_retry : ℤ

abbrev pub or_default : Option ℤ → ℤ → ℤ
or_default none d = d
or_default (some z) d = z

unfoldable pub get_max_backoff : Executable → ℤ
get_max_backoff e = or_default e.max_backoff (pos (8 * second))

unfoldable pub get_min_backoff : Executable → ℤ
get_min_backoff e = or_default e.min_backoff (pos 250_000_000)

-- Both setters panic, `none`, on a bad value, and on a nil pointer to the other bound.
unfoldable pub set_max_backoff : Executable → ℤ → Option Executable
set_max_backoff e max =
    if ltb_ℤ max (pos 0)
    then none
    else bind e.min_backoff
        λ min. if ltb_ℤ max min then none else some (record e { max_backoff = some max })

unfoldable pub set_min_backoff : Executable → ℤ → Option Executable
set_min_backoff e min =
    if ltb_ℤ min (pos 0)
    then none
    else bind e.max_backoff
        λ max. if ltb_ℤ max min then none else some (record e { min_backoff = some min })

-- The item's conversion to an account ID panics on nil.
unfoldable pub node_account_ids_of : List (Option Text) → Option (List Text)
node_account_ids_of [] = some []
node_account_ids_of (item ∷ items) =
    bind item λ id. bind (node_account_ids_of items) λ ids. some (id ∷ ids)

unfoldable pub get_node_account_ids : Executable → Option (List Text)
get_node_account_ids e = node_account_ids_of e.node_account_ids.slice

unfoldable pub push_all : LockableSlice Text → List Text → Option (LockableSlice Text)
push_all ls [] = some ls
push_all ls (id ∷ ids) = bind (push ls (some id ∷ [])) λ ls'. push_all ls' ids

unfoldable pub set_node_account_ids : Executable → List Text → Option Executable
set_node_account_ids e ids =
    bind (push_all e.node_account_ids ids)
      λ ls. some (record e { node_account_ids = set_locked ls true })

unfoldable pub get_node_account_id : Executable → Option Text
get_node_account_id e = bind (get_current e.node_account_ids) λ item. item

unfoldable pub advance_request : Executable → Executable
advance_request e =
    if e.is_transaction
    then record e {
      node_account_ids = (advance e.node_account_ids).0;
      signed_transactions = (advance e.signed_transactions).0;
    }
    else record e { node_account_ids = (advance e.node_account_ids).0 }

-- `fresh` is the generated ID, or none where the operator's account is zero; the result none is the
-- panic of a position out of range.
unfoldable pub regenerate_id : Executable → Option Text → Option (Executable × Bool)
regenerate_id e none = some (e, false)
regenerate_id e (some id) =
    if not (e.regenerates && not e.transaction_ids.locked)
    then some (e, false)
    else bind (set_item e.transaction_ids e.transaction_ids.index (some id))
        λ ids. some (record e { transaction_ids = ids }, true)

-- What a caller gets: `TransactionResponse` with the node's account ID, the transaction ID and the hash,
-- or the response to a query, of the library's type `R`.
pub data Reply (R : Type 0) : Type 0 where
  transaction_response : Text → Text → Text → Reply R
  query_response : R → Reply R

-- A transaction takes its next ID. The panics are of no IDs, of a nil ID, and of a nil request.
abbrev pub transaction_reply :
    {R : Type 0}
    → (Text → Text)
    → Text
    → Option Text
    → Executable
    → Option (LockableSlice Text × Option Text)
    → Option (Executable × Reply R)
transaction_reply hash node none e next = none
transaction_reply hash node (some bytes) e none = none
transaction_reply hash node (some bytes) e (some (ids, none)) = none
transaction_reply hash node (some bytes) e (some (ids, some id)) =
    some (record e { transaction_ids = ids }, transaction_response node id (hash bytes))

-- `mapResponse`, of the node's account ID, the request's signed bytes, or none for a nil request, and
-- the node's response. `hash` is SHA-384; the result none is a panic.
unfoldable pub map_response :
    {R : Type 0}
    → (Text → Text)
    → Executable
    → Text
    → Option Text
    → R
    → Option (Executable × Reply R)
map_response hash e node request response =
    if e.is_transaction
    then transaction_reply hash node request e (get_next e.transaction_ids)
    else some (e, query_response response)

abbrev pub has_item : Option (Option Text) → Bool
has_item (some (some id)) = true
has_item _ = false

-- `getLogID` panics for a transaction that has no current ID.
unfoldable pub get_log_id_panics : Executable → Bool
get_log_id_panics e = e.is_transaction && not (has_item (get_current e.transaction_ids))

-- The response codes of sdk/status.go that the code names.
abbrev pub status_ok : ℕ
status_ok = 0

abbrev pub status_invalid_node_account : ℕ
status_invalid_node_account = 3

abbrev pub status_transaction_expired : ℕ
status_transaction_expired = 4

abbrev pub status_busy : ℕ
status_busy = 12

abbrev pub status_platform_not_active : ℕ
status_platform_not_active = 67

abbrev pub status_platform_transaction_not_created : ℕ
status_platform_transaction_not_created = 69

abbrev pub is_retryable : ℕ → Bool
is_retryable s =
    s == status_platform_transaction_not_created
    || s == status_platform_not_active
    || s == status_busy

-- `shouldRetry` of a transaction
unfoldable pub transaction_should_retry : ℕ → ExecutionState
transaction_should_retry s =
    if is_retryable s
    then retry
    else if s == status_transaction_expired
    then expired
    else if s == status_ok
    then finished
    else if s == status_invalid_node_account
    then retry_with_another_node
    else error

-- `shouldRetry` of a query
unfoldable pub query_should_retry : ℕ → ExecutionState
query_should_retry s = if is_retryable s then retry else if s == status_ok then finished else error

abbrev pub status_receipt_not_found : ℕ
status_receipt_not_found = 18

abbrev pub status_record_not_found : ℕ
status_record_not_found = 19

abbrev pub status_unknown : ℕ
status_unknown = 21

-- What `shouldRetry` reads of a response: the code of the precheck, the status of the receipt in it,
-- and whether it is an answer to the question of the cost.
pub record Statuses : Type 0 where
  pub precheck : ℕ
  pub receipt : ℕ
  pub is_cost_answer : Bool

-- The statuses of a receipt that is not there yet, or not known.
abbrev pub is_pending : ℕ → Bool
is_pending s =
    s == status_busy
    || s == status_unknown
    || s == status_receipt_not_found
    || s == status_record_not_found
    || s == status_platform_not_active

abbrev pub by_receipt : ℕ → ExecutionState
by_receipt s = if is_pending s || s == status_ok then retry else finished

-- `shouldRetry` of a receipt query
unfoldable pub receipt_should_retry : Statuses → ExecutionState
receipt_should_retry s =
    if s.precheck == status_platform_transaction_not_created || is_pending s.precheck
    then retry
    else if s.precheck == status_ok
    then by_receipt s.receipt
    else error

-- `shouldRetry` of a record query
unfoldable pub record_should_retry : Statuses → ExecutionState
record_should_retry s =
    if s.precheck == status_platform_transaction_not_created || is_pending s.precheck
    then retry
    else if s.precheck == status_ok
    then (if s.is_cost_answer then finished else by_receipt s.receipt)
    else error

abbrev pub kind_should_retry : QueryKind → Statuses → ExecutionState
kind_should_retry plain_query s = query_should_retry s.precheck
kind_should_retry receipt_query s = receipt_should_retry s
kind_should_retry record_query s = record_should_retry s

abbrev pub should_retry : Bool → QueryKind → Statuses → ExecutionState
should_retry is_transaction kind s =
    if is_transaction then transaction_should_retry s.precheck else kind_should_retry kind s

-- The status of `mapStatusError` of a receipt query and of a record query.
unfoldable pub receipt_status_error : Statuses → ℕ
receipt_status_error s =
    if s.precheck == status_platform_transaction_not_created
      || s.precheck == status_busy
      || s.precheck == status_unknown
      || s.precheck == status_ok
    then s.receipt
    else s.precheck

unfoldable pub record_status_error : Statuses → ℕ
record_status_error s =
    if s.precheck == status_platform_transaction_not_created
      || s.precheck == status_busy
      || s.precheck == status_unknown
      || s.precheck == status_receipt_not_found
      || s.precheck == status_record_not_found
      || s.precheck == status_ok
    then s.receipt
    else s.precheck

abbrev pub kind_status_error : QueryKind → Statuses → ℕ
kind_status_error plain_query s = s.precheck
kind_status_error receipt_query s = receipt_status_error s
kind_status_error record_query s = record_status_error s

-- `mapStatusError`
abbrev pub map_status_error : Bool → QueryKind → Statuses → ℕ
map_status_error is_transaction kind s =
    if is_transaction then s.precheck else kind_status_error kind s

-- An error of the gRPC library: its code, and its message where it is a status.
pub record GrpcError : Type 0 where
  pub code : ℕ
  pub message : Option Text

abbrev matches : (Text → Bool) → Option Text → Bool
matches rst_stream none = false
matches rst_stream (some message) = rst_stream message

-- The codes are DeadlineExceeded, ResourceExhausted, Internal and Unavailable; `rst_stream` is the
-- match of the regular expression of that name.
unfoldable pub executable_default_retry_handler : (Text → Bool) → GrpcError → Bool
executable_default_retry_handler rst_stream err =
    if err.code == 8 || err.code == 14 || err.code == 4
    then true
    else if err.code == 13
    then matches rst_stream err.message
    else false
