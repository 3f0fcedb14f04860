-- ===== src/Execute/Changes.antt =====
-- sdk/executable.go: what holds of an execution through each of its changes holds through the loop.
use hiero_sdk_go.Base.{
  ℕ, zero, suc, ◌+◌, ◌≡◌, refl, Bool, true, false, not, Option, none, some, List, [], ◌∷◌, if_elim,
}
use hiero_sdk_go.Base.Int.{ltb_ℤ}
use hiero_sdk_go.Base.Text.{Text}
use hiero_sdk_go.Node.{is_healthy}
use hiero_sdk_go.Network.{Network, get_node}
use hiero_sdk_go.Execute.{
  ExecutionState, retry, finished, error, expired, retry_with_another_node, Executable,
  get_max_backoff, regenerate_id, Reply, map_response, get_log_id_panics,
  executable_default_retry_handler,
}
use hiero_sdk_go.Execute.Loop.{
  Failure, Answer, no_channel, call_failed, answered, Attempt, Client, Outcome, Run, Step, stop,
  again, advanced, delayed, failing, use_node, punish, reward, deferring, mapped, is_none,
  regenerated, after_answer, after_call, with_node, given_node, given_id, picked_node, choose_node,
  backoff_of_attempt, timeout_of, attempt, continue, attempts,
}

abbrev pub run_of : {R : Type 0} → Step R → Run
run_of (stop o run) = run
run_of (again run) = run

-- What the changes of an attempt keep.
pub record IsKept (R : Type 0) (P : Run → Type 0) : Type 0 where
  pub advance : (run : Run) → P run → P (advanced run)
  pub delay : (run : Run) → P run → P (delayed run)
  pub fail : (run : Run) → P run → (f : Failure) → P (failing f run)
  pub use_a : (run : Run) → P run → (a : Attempt R) (r : ℕ) → P (use_node a r run)
  pub punished : (run : Run) → P run → (a : Attempt R) (r : ℕ) → P (punish a r run)
  pub rewarded : (run : Run) → P run → (r : ℕ) → P (reward r run)
  pub called : (run : Run) → P run → (r : ℕ) → P (record run { calls = r ∷ run.calls })
  pub picked :
      (run : Run)
      → P run
      → (a : Attempt R) (mn : Network) (r : ℕ)
      → get_node run.network a.picked_at a.pick ≡ some (mn, r)
      → P (record run { network = mn })
  pub regenerate :
      (run : Run)
      → P run
      → (id : Option Text) (e : Executable) (b : Bool)
      → regenerate_id run.executable id ≡ some (e, b)
      → P (record run { executable = e })
  pub map_to :
      (run : Run)
      → P run
      → (hash : Text → Text) (node : Text) (request : Option Text) (response : R) (e : Executable)
        (reply : Reply R)
      → map_response hash run.executable node request response ≡ some (e, reply)
      → P (record run { executable = e })
  pub defers : (run : Run) → P run → P (deferring run)

module _ {R : Type 0} where
  module _ (P : Run → Type 0) (kept : IsKept R P) (client : Client) (a : Attempt R) where
    regenerated_kept :
        (s : ℕ) (run : Run) (o : Option (Executable × Bool))
        → P run
        → ((e : Executable) (b : Bool) → o ≡ some (e, b) → P (record run { executable = e }))
        → P (run_of {R = R} (regenerated s run o))
    regenerated_kept s run none h k = h
    regenerated_kept s run (some (e, true)) h k = k e true refl
    regenerated_kept s run (some (e, false)) h k = k e false refl

    mapped_kept :
        (run : Run) (o : Option (Executable × Reply R))
        → P run
        → ((e : Executable) (reply : Reply R)
            → o ≡ some (e, reply)
            → P (record run { executable = e }))
        → P (run_of {R = R} (mapped run o))
    mapped_kept run none h k = h
    mapped_kept run (some (e, reply)) h k = k e reply refl

    after_answer_kept :
        (r s : ℕ) (response : R) (run : Run) (state : ExecutionState)
        → P run
        → P (run_of (after_answer client a r s response run state))
    unfolding after_answer
    after_answer_kept r s response run retry h = kept.delay _ (kept.fail run h _)
    after_answer_kept r s response run expired h =
        if_elim (λ (x : Step R). P (run_of x)) run.executable.is_transaction
          (regenerated_kept s run _ h (kept.regenerate run h a.fresh_id)) h
    after_answer_kept r s response run error h = h
    after_answer_kept r s response run finished h =
        mapped_kept run _ h (kept.map_to run h client.hash _ _ response)
    after_answer_kept r s response run retry_with_another_node h =
        kept.punished _ (kept.defers _ (kept.advance _ (kept.fail run h _))) a r

    after_call_kept :
        (r : ℕ) (run : Run) (answer : Answer R)
        → P run
        → P (run_of (after_call client a r run answer))
    unfolding after_call
    after_call_kept r run (no_channel err) h =
        kept.fail _ (kept.advance _ (kept.punished run h a r)) _
    after_call_kept r run (call_failed err) h =
        let failed_call = kept.fail _ (kept.advance _ (kept.called run h r)) _ in
        if_elim (λ (x : Step R). P (run_of x))
          (executable_default_retry_handler client.rst_stream err) (kept.punished _ failed_call a r)
          failed_call
    after_call_kept r run (answered s response) h =
        after_answer_kept r _ response _ _ (kept.rewarded _ (kept.called run h r) r)

    with_node_kept : (run : Run) (r : ℕ) → P run → P (run_of (with_node client a run r))
    unfolding with_node
    with_node_kept run r h =
        let used = kept.use_a run h a r in
        if_elim (λ (x : Step R). P (run_of x)) (get_log_id_panics run.executable) used
          (if_elim (λ (x : Step R). P (run_of x))
            (is_healthy ((use_node a r run).network.store r).managed a.checked_at)
            (after_call_kept r _ a.answer used) (kept.delay _ used))

    picked_kept :
        (run : Run) (o : Option (Network × ℕ))
        → P run
        → ((mn : Network) (r : ℕ) → o ≡ some (mn, r) → P (record run { network = mn }))
        → P (run_of (picked_node client a run o))
    picked_kept run none h k = h
    picked_kept run (some (mn, r)) h k =
        with_node_kept (record run { network = mn }) r (k mn r refl)

    given_node_kept :
        (run : Run) (id : Text) (o : Option ℕ) → P run → P (run_of (given_node client a run id o))
    given_node_kept run id none h = h
    given_node_kept run id (some r) h = with_node_kept run r h

    given_id_kept : (run : Run) (o : Option Text) → P run → P (run_of (given_id client a run o))
    given_id_kept run none h = h
    given_id_kept run (some id) h = given_node_kept run id _ h

    choose_node_kept :
        (run : Run) (o : Option (List Text)) → P run → P (run_of (choose_node client a run o))
    unfolding choose_node
    choose_node_kept run none h = h
    choose_node_kept run (some []) h = picked_kept run _ h (kept.picked run h a)
    choose_node_kept run (some (id ∷ ids)) h = given_id_kept run _ h

  -- An attempt keeps what its changes keep, the change of the backoff included.
  pub attempt_kept :
      (P : Run → Type 0)
      → IsKept R P
      → (client : Client) (a : Attempt R) (k : ℕ) (run : Run) → P run
      → P (record run {
        current_backoff = backoff_of_attempt k (get_max_backoff run.executable) run.current_backoff;
      })
      → P (run_of (attempt client a k run))
  unfolding attempt
  attempt_kept P kept client a k run h h' =
      if_elim (λ (x : Step R). P (run_of x))
        (not (ltb_ℤ a.elapsed (timeout_of client run.executable))) h
        (if_elim (λ (x : Step R). P (run_of x)) (is_none a.request) h'
          (if_elim (λ (x : Step R). P (run_of x)) client.is_batched h'
            (choose_node_kept P kept client a _ _ h')))

  module _ (P : Run → Type 0) (client : Client) (world : ℕ → Attempt R)
      (each : (k : ℕ) (run : Run) → P run → P (run_of (attempt client (world k) k run))) where
    continue_kept :
        (step : Step R) (rest : Run → Run × Outcome R)
        → P (run_of step)
        → ((run : Run) → P run → P (rest run).0)
        → P (continue step rest).0
    continue_kept (stop o run) rest h k = h
    continue_kept (again run) rest h k = k run h

    -- So does the loop.
    pub attempts_kept : (left k : ℕ) (run : Run) → P run → P (attempts client world left k run).0
    unfolding attempts
    attempts_kept zero k run h = h
    attempts_kept (suc left) k run h =
        continue_kept (attempt client (world k) k run) _ (each k run h) (attempts_kept left (k + 1))
