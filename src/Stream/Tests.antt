-- ===== src/Stream/Tests.antt =====
-- sdk/mirror_node.go at concrete streams.
use hiero_sdk_go.Base.{ℕ, ◌≡◌, refl, Bool, true, List, [], ◌∷◌, ◌++◌, arith, take}
use hiero_sdk_go.Stream.{max_attempts_reached, other, process_stream}
use hiero_sdk_go.Stream.Retries.{receiving, messages, process_stream-after_error}

abbrev two : List ℕ
two = 4 ∷ 5 ∷ []

abbrev three : List ℕ
three = 4 ∷ 5 ∷ 6 ∷ []

abbrev error : ℕ
error = 7

abbrev retry_all : ℕ → Bool
retry_all e = true

process_stream-after_error_example :
    process_stream 2 retry_all (other error) 0 (receiving three)
    ≡ messages (take 2 three) ++ (max_attempts_reached error ∷ [])
process_stream-after_error_example =
    process_stream-after_error 2 retry_all error 2 0 three refl (omega arith) (omega arith)
