-- ===== src/Stream/Retries.antt =====
-- sdk/mirror_node.go: what a stream sends without an error, and after one.
use hiero_sdk_go.Base.{
  ℕ, zero, suc, ◌+◌, ◌≤◌, ◌<◌, ◌≡◌, refl, ap, Bool, true, false, List, [], ◌∷◌, ◌++◌, arith, ltb,
  lt→ltb, length, take,
}
use hiero_sdk_go.Stream.{
  Recv, received, end_of_stream, failed, StreamResult, message, max_attempts_reached, no_error,
  other, process_stream,
}

module _ {A E : Type 0} where
  -- Rounds that each receive a message.
  unfoldable pub receiving : List A → List (Bool × Recv A E)
  receiving [] = []
  receiving (m ∷ ms) = (false, received m) ∷ receiving ms

  unfoldable pub messages : List A → List (StreamResult A E)
  messages [] = []
  messages (m ∷ ms) = message m ∷ messages ms

-- Without an error before, the messages are sent in their order, and then the end ends the stream
-- with nothing more sent, whatever follows.
process_stream-in_order :
    {A E : Type 0} (max_attempts : ℕ) (retry_handler : E → Bool) (attempt : ℕ) (ms : List A)
    (round : Bool × Recv A E)
    → process_stream max_attempts retry_handler no_error attempt
        (receiving ms ++ ((false, end_of_stream) ∷ (false, round.1) ∷ []))
      ≡ messages ms
unfolding process_stream receiving messages
process_stream-in_order max_attempts retry_handler attempt [] (b, received m) = refl
process_stream-in_order max_attempts retry_handler attempt [] (b, end_of_stream) = refl
process_stream-in_order max_attempts retry_handler attempt [] (b, failed e) = refl
process_stream-in_order max_attempts retry_handler attempt (m ∷ ms) round =
    ap (λ l. message m ∷ l) (process_stream-in_order max_attempts retry_handler attempt ms round)

not_left : (attempt max_attempts : ℕ) → max_attempts ≤ attempt → ltb attempt max_attempts ≡ false
not_left attempt max_attempts h = ground arith

-- After one error that is retried, every message received spends an attempt: although the stream
-- has no further error, as many messages are sent as attempts are left, and then that the attempts
-- are over.
pub process_stream-after_error :
    {A E : Type 0} (max_attempts : ℕ) (retry_handler : E → Bool) (e : E) (left attempt : ℕ)
    (ms : List A)
    → retry_handler e ≡ true
    → attempt + left ≡ max_attempts
    → left < length ms
    → process_stream max_attempts retry_handler (other e) attempt (receiving ms)
      ≡ messages (take left ms) ++ (max_attempts_reached e ∷ [])
unfolding process_stream receiving messages
process_stream-after_error max_attempts retry_handler e left attempt [] r s h = absurd (omega arith)
process_stream-after_error max_attempts retry_handler e zero attempt (m ∷ ms) r s h =
    rw (r, not_left attempt max_attempts (omega arith)) refl
process_stream-after_error max_attempts retry_handler e (suc left) attempt (m ∷ ms) r s h =
    rw (r, lt→ltb attempt max_attempts (omega arith))
      (ap (λ l. message m ∷ l)
        (process_stream-after_error max_attempts retry_handler e left (attempt + 1) ms r
          (omega arith) (omega arith)))
