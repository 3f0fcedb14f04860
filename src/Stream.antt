-- ===== src/Stream.antt =====
-- sdk/mirror_node.go: `processProtoMessageStream`, the loop that receives from a stream and sends on
-- a channel. Delays are left out.
pub mod Retries
mod Tests
use hiero_sdk_go.Base.{
  ℕ, zero, suc, ◌+◌, Bool, true, false, not, Option, none, some, List, [], ◌∷◌, ltb, if◌then◌else◌,
}

-- What `Recv` returns: a message, the end, or another error of the library's type `E`.
pub data Recv (A E : Type 0) : Type 0 where
  received : A → Recv A E
  end_of_stream : Recv A E
  failed : E → Recv A E

-- What is sent on the channel.
pub data StreamResult (A E : Type 0) : Type 0 where
  message : A → StreamResult A E
  context_done : StreamResult A E
  stream_error : E → StreamResult A E
  max_attempts_reached : E → StreamResult A E

-- The error of the last round that had one, which the loop keeps: `io.EOF` or another.
pub data StreamError (E : Type 0) : Type 0 where
  no_error eof : StreamError E
  other : E → StreamError E

module _ {A E : Type 0} (max_attempts : ℕ) (retry_handler : E → Bool) where
  -- The check of the error before a round: the round goes on with the attempts counted so far.
  abbrev pub check_error :
      StreamError E → ℕ → (ℕ → List (StreamResult A E)) → List (StreamResult A E)
  check_error no_error attempt go_on = go_on attempt
  check_error eof attempt go_on = []
  check_error (other e) attempt go_on =
      if not (retry_handler e)
      then stream_error e ∷ []
      else if ltb attempt max_attempts
      then go_on (attempt + 1)
      else max_attempts_reached e ∷ []

  -- The rounds: for each, whether the context is done, and what `Recv` returns. The results end
  -- where the rounds do.
  unfoldable pub process_stream :
      StreamError E → ℕ → List (Bool × Recv A E) → List (StreamResult A E)
  process_stream err attempt [] = []
  process_stream err attempt ((true, recv) ∷ rounds) = context_done ∷ []
  process_stream err attempt ((false, received m) ∷ rounds) =
      check_error err attempt (λ k. message m ∷ process_stream err k rounds)
  process_stream err attempt ((false, end_of_stream) ∷ rounds) =
      check_error err attempt (λ k. process_stream eof k rounds)
  process_stream err attempt ((false, failed e) ∷ rounds) =
      check_error err attempt (λ k. process_stream (other e) k rounds)
