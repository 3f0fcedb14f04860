-- ===== src/Execute/Outcomes.antt =====
-- sdk/executable.go: how many calls an execution makes, and which answers it returns.
use hiero_sdk_go.Base.{
  ℕ, zero, suc, ◌+◌, ◌≤◌, ◌<◌, ◌≡◌, refl, Bool, true, false, not, Option, none, some, List, [], ◌∷◌,
  arith, if_elim, if◌then◌else◌, length,
}
use mathlib.Core.Path.{subst}
use hiero_sdk_go.Base.Int.{ltb_ℤ}
use hiero_sdk_go.Base.Text.{Text}
use hiero_sdk_go.LockableSlice.{LockableSlice, get_next}
use hiero_sdk_go.Node.{is_healthy}
use hiero_sdk_go.Network.{Network}
use hiero_sdk_go.Execute.{
  ExecutionState, retry, finished, error, expired, retry_with_another_node, Executable, QueryKind,
  plain_query, receipt_query, record_query, Statuses, Reply, transaction_response, query_response,
  transaction_reply, map_response, get_log_id_panics, receipt_should_retry, record_should_retry,
  should_retry, transaction_should_retry, query_should_retry, executable_default_retry_handler,
}
use hiero_sdk_go.Execute.Loop.{
  Failure, AddressBook, mapped, built, is_none, after_deferred, execute_attempts,
  update_address_books, Answer, no_channel, call_failed, answered, Attempt, Client, Outcome,
  returned, failed, Run, Step, stop, again, use_node, regenerated, after_answer, after_call,
  with_node, given_node, given_id, picked_node, choose_node, timeout_of, attempt, exhausted,
  continue, attempts, max_attempts_of, execute,
}

finished_ok :
    (b : Bool) (kind : QueryKind) (s : Statuses) → should_retry b kind s ≡ finished → s.precheck ≡ 0
unfolding transaction_should_retry query_should_retry receipt_should_retry record_should_retry
finished_ok true kind s e = ground arith
finished_ok false plain_query s e = ground arith
finished_ok false receipt_query s e = ground arith
finished_ok false record_query s e = ground arith

module _ {R : Type 0} where
  -- A query returns the response itself; a transaction's reply has the hash of the request that was
  -- built.
  abbrev pub IsReply : Client → Attempt R → R → Reply R → Type 0
  IsReply client a response (query_response response') = response' ≡ response
  IsReply client a response (transaction_response node id h) =
      (bytes : Text) × (a.request ≡ some (some bytes)) × (h ≡ client.hash bytes)

  -- A response is returned only where the answer has it, with the status OK, and at most one call
  -- is added.
  IsAnswer : Client → Attempt R → Outcome R → Type 0
  IsAnswer client a (returned reply) =
      (s : Statuses) × (response : R) × (a.answer ≡ answered s response)
      × (s.precheck ≡ 0)
      × IsReply client a response reply
  IsAnswer client a (failed f) = Unit

  abbrev IsStep : Client → Attempt R → ℕ → Step R → Type 0
  IsStep client a n (stop o run) = IsAnswer client a o × (length run.calls ≤ n)
  IsStep client a n (again run) = length run.calls ≤ n

  regenerated-IsStep :
      (client : Client) (a : Attempt R) (n s : ℕ) (run : Run) (o : Option (Executable × Bool))
      → length run.calls ≤ n
      → IsStep client a n (regenerated s run o)
  unfolding IsAnswer
  regenerated-IsStep client a n s run none h = (tt, h)
  regenerated-IsStep client a n s run (some (e, true)) h = h
  regenerated-IsStep client a n s run (some (e, false)) h = (tt, h)

  mapped-IsStep :
      (client : Client) (a : Attempt R) (n : ℕ) (s : Statuses) (response : R) (run : Run)
      (o : Option (Executable × Reply R))
      → length run.calls ≤ n
      → a.answer ≡ answered s response
      → s.precheck ≡ 0
      → ((e : Executable) (reply : Reply R) → o ≡ some (e, reply) → IsReply client a response reply)
      → IsStep client a n (mapped run o)
  unfolding IsAnswer
  mapped-IsStep client a n s response run none h e ok k = (tt, h)
  mapped-IsStep client a n s response run (some (e', reply)) h e ok k =
      ((s, response, e, ok, k e' reply refl), h)

  transaction_reply-IsReply :
      (client : Client) (a : Attempt R) (node : Text) (request : Option (Option Text))
      (e e' : Executable) (next : Option (LockableSlice Text × Option Text)) (response : R)
      (reply : Reply R)
      → a.request ≡ request
      → transaction_reply client.hash node (built request) e next ≡ some (e', reply)
      → IsReply client a response reply
  transaction_reply-IsReply client a node none e e' next response reply same h = cc
  transaction_reply-IsReply client a node (some none) e e' next response reply same h = cc
  transaction_reply-IsReply client a node (some (some bytes)) e e' none response reply same h = cc
  transaction_reply-IsReply client a node (some (some bytes)) e e' (some (ids, none)) response reply
        same h =
      cc
  transaction_reply-IsReply client a node (some (some bytes)) e e' (some (ids, some id)) response
        reply same h =
      let of_reply : transaction_response node id (client.hash bytes) ≡ reply = cc in
      subst (IsReply client a response) of_reply (bytes, same, refl)

  reply-IsReply :
      (client : Client) (a : Attempt R) (node : Text) (e e' : Executable) (response : R)
      (reply : Reply R) (b : Bool)
      → (if b
          then transaction_reply client.hash node (built a.request) e (get_next e.transaction_ids)
          else some (e, query_response response))
        ≡ some (e', reply)
      → IsReply client a response reply
  reply-IsReply client a node e e' response reply true h =
      transaction_reply-IsReply client a node a.request e e' (get_next e.transaction_ids) response
        reply refl h
  reply-IsReply client a node e e' response reply false h =
      let of_reply : query_response response ≡ reply = cc in
      subst (IsReply client a response) of_reply refl

  after_answer-IsStep :
      (client : Client) (a : Attempt R) (n r s : ℕ) (st : Statuses) (response : R) (run : Run)
      (state : ExecutionState)
      → length run.calls ≤ n
      → a.answer ≡ answered st response
      → (state ≡ finished → st.precheck ≡ 0)
      → IsStep client a n (after_answer client a r s response run state)
  unfolding after_answer map_response IsAnswer
  after_answer-IsStep client a n r s st response run retry h e k = h
  after_answer-IsStep client a n r s st response run expired h e k =
      if_elim (IsStep client a n) run.executable.is_transaction
        (regenerated-IsStep client a n s run _ h) (tt, h)
  after_answer-IsStep client a n r s st response run error h e k = (tt, h)
  after_answer-IsStep client a n r s st response run finished h e k =
      mapped-IsStep client a n st response run _ h e (k refl) (λ e' reply.
        reply-IsReply client a (run.network.store r).account_id run.executable e' response reply
          run.executable.is_transaction)
  after_answer-IsStep client a n r s st response run retry_with_another_node h e k = h

  after_call-IsStep :
      (client : Client) (a : Attempt R) (n r : ℕ) (run : Run) (answer : Answer R)
      → suc (length run.calls) ≤ n
      → a.answer ≡ answer
      → IsStep client a n (after_call client a r run answer)
  unfolding after_call IsAnswer
  after_call-IsStep client a n r run (no_channel err) h e = omega arith
  after_call-IsStep client a n r run (call_failed err) h e =
      if_elim (IsStep client a n) (executable_default_retry_handler client.rst_stream err) h (tt, h)
  after_call-IsStep client a n r run (answered s response) h e =
      after_answer-IsStep client a n r _ s response _ _ h e
        (finished_ok run.executable.is_transaction run.executable.query_kind s)

  with_node-IsStep :
      (client : Client) (a : Attempt R) (n : ℕ) (run : Run) (r : ℕ)
      → suc (length run.calls) ≤ n
      → IsStep client a n (with_node client a run r)
  unfolding with_node IsAnswer
  with_node-IsStep client a n run r h =
      if_elim (IsStep client a n) (get_log_id_panics run.executable) (tt, omega arith)
        (if_elim (IsStep client a n)
          (is_healthy ((use_node a r run).network.store r).managed a.checked_at)
          (after_call-IsStep client a n r (use_node a r run) a.answer h refl) (omega arith))

  picked-IsStep :
      (client : Client) (a : Attempt R) (n : ℕ) (run : Run) (o : Option (Network × ℕ))
      → suc (length run.calls) ≤ n
      → IsStep client a n (picked_node client a run o)
  unfolding IsAnswer
  picked-IsStep client a n run none h = (tt, omega arith)
  picked-IsStep client a n run (some (mn, r)) h = with_node-IsStep client a n _ r h

  given_node-IsStep :
      (client : Client) (a : Attempt R) (n : ℕ) (run : Run) (id : Text) (o : Option ℕ)
      → suc (length run.calls) ≤ n
      → IsStep client a n (given_node client a run id o)
  unfolding IsAnswer
  given_node-IsStep client a n run id none h = (tt, omega arith)
  given_node-IsStep client a n run id (some r) h = with_node-IsStep client a n run r h

  given_id-IsStep :
      (client : Client) (a : Attempt R) (n : ℕ) (run : Run) (o : Option Text)
      → suc (length run.calls) ≤ n
      → IsStep client a n (given_id client a run o)
  unfolding IsAnswer
  given_id-IsStep client a n run none h = (tt, omega arith)
  given_id-IsStep client a n run (some id) h = given_node-IsStep client a n run id _ h

  choose_node-IsStep :
      (client : Client) (a : Attempt R) (n : ℕ) (run : Run) (o : Option (List Text))
      → suc (length run.calls) ≤ n
      → IsStep client a n (choose_node client a run o)
  unfolding choose_node IsAnswer
  choose_node-IsStep client a n run none h = (tt, omega arith)
  choose_node-IsStep client a n run (some []) h = picked-IsStep client a n run _ h
  choose_node-IsStep client a n run (some (id ∷ ids)) h = given_id-IsStep client a n run _ h

  attempt-IsStep :
      (client : Client) (a : Attempt R) (k : ℕ) (run : Run)
      → IsStep client a (suc (length run.calls)) (attempt client a k run)
  unfolding attempt IsAnswer
  attempt-IsStep client a k run =
      if_elim (IsStep client a (suc (length run.calls)))
        (not (ltb_ℤ a.elapsed (timeout_of client run.executable))) (tt, omega arith)
        (if_elim (IsStep client a (suc (length run.calls))) (is_none a.request) (tt, omega arith)
          (if_elim (IsStep client a (suc (length run.calls))) client.is_batched (tt, omega arith)
            (choose_node-IsStep client a _ _ _ (omega arith))))

  -- The number of the attempt that an outcome comes from.
  AnsweredIn : Client → (ℕ → Attempt R) → ℕ → ℕ → Outcome R → Type 0
  AnsweredIn client world from to (returned reply) =
      (k : ℕ) × (from ≤ k) × (k < to) × IsAnswer client (world k) (returned reply)
  AnsweredIn client world from to (failed f) = Unit

  answered_here :
      (client : Client) (world : ℕ → Attempt R) (k to : ℕ) (o : Outcome R)
      → k < to
      → IsAnswer client (world k) o
      → AnsweredIn client world k to o
  unfolding AnsweredIn
  answered_here client world k to (returned reply) h e = (k, omega arith, h, e)
  answered_here client world k to (failed f) h e = tt

  answered_later :
      (client : Client) (world : ℕ → Attempt R) (k to : ℕ) (o : Outcome R)
      → AnsweredIn client world (k + 1) to o
      → AnsweredIn client world k to o
  unfolding AnsweredIn
  answered_later client world k to (returned reply) (j, lo, hi, e) = (j, omega arith, hi, e)
  answered_later client world k to (failed f) e = tt

  exhausted_in :
      (client : Client) (world : ℕ → Attempt R) (from to : ℕ) (o : Option Failure)
      → AnsweredIn client world from to (exhausted o)
  unfolding AnsweredIn
  exhausted_in client world from to none = tt
  exhausted_in client world from to (some f) = tt

  continue_in :
      (client : Client) (world : ℕ → Attempt R) (k left n : ℕ) (step : Step R)
      (rest : Run → Run × Outcome R)
      → IsStep client (world k) (suc n) step
      → ((run : Run)
          → AnsweredIn client world (k + 1) (k + 1 + left) (rest run).1
            × (length (rest run).0.calls ≤ length run.calls + left))
      → AnsweredIn client world k (k + suc left) (continue step rest).1
        × (length (continue step rest).0.calls ≤ n + suc left)
  continue_in client world k left n (stop o run) rest (e, h) ih =
      (answered_here client world k (k + suc left) o (omega arith) e, omega arith)
  continue_in client world k left n (again run) rest h ih = (
    answered_later client world k (k + suc left) _
        (subst (λ to. AnsweredIn client world (k + 1) to (rest run).1) (omega arith) (ih run).0),
    omega (arith, (ih run).1),
  )

  attempts_in :
      (client : Client) (world : ℕ → Attempt R) (left k : ℕ) (run : Run)
      → AnsweredIn client world k (k + left) (attempts client world left k run).1
        × (length (attempts client world left k run).0.calls ≤ length run.calls + left)
  unfolding attempts
  attempts_in client world zero k run =
      (exhausted_in client world k (k + 0) run.err_persistent, omega arith)
  attempts_in client world (suc left) k run =
      continue_in client world k left (length run.calls) (attempt client (world k) k run) _
        (attempt-IsStep client (world k) k run) (attempts_in client world left (k + 1))

  -- What holds of the calls holds after the deferred updates.
  after_deferred_calls :
      (run : Run) (o : Outcome R) (mn : Option Network)
      → (after_deferred run o mn).0.calls ≡ run.calls
  after_deferred_calls run o none = refl
  after_deferred_calls run o (some mn) = refl

-- An execution calls nodes at most as often as it has attempts.
pub length-execute :
    {R : Type 0} (client : Client) (world : ℕ → Attempt R) (books : ℕ → AddressBook)
    (e : Executable) (mn : Network)
    → length (execute client world books e mn).0.calls ≤ max_attempts_of client e
unfolding execute execute_attempts
length-execute client world books e mn =
    let run : Run = (execute_attempts client world e mn).0 in
    let same =
      after_deferred_calls run (execute_attempts client world e mn).1
        (update_address_books books run.deferred run.network) in
    rw same (omega (arith, (attempts_in client world (max_attempts_of client e) 0 _).1))
