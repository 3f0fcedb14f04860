-- ===== src/Topic/Tests.antt =====
-- sdk/topic_message.go at a concrete message.
use hiero_sdk_go.Base.{
  ℕ, zero, suc, All, length, ◌≤◌, ◌<◌, ◌≡◌, refl, true, some, List, [], ◌∷◌, arith,
}
use hiero_sdk_go.Base.Int.{pos}
use hiero_sdk_go.Base.Text.{Text}
use hiero_sdk_go.Topic.{
  SentChunkInfo, to_int32, piece, count_chunks, chunk_loop, freeze_with, Response, TopicMessage,
  topic_message_of_many,
}
use hiero_sdk_go.Topic.Pieces.{join_chunks, freeze_with_lem}
use hiero_sdk_go.Topic.Chunks.{has_number, topic_message_of_many_lem}

-- "abc" in chunks of two bytes; the second one comes first.
abbrev response : ℕ → Text → Response
response number message = record {
  consensus_timestamp = pos number;
  message = message;
  running_hash = [];
  sequence_number = number;
  chunk_info = some (record { initial_transaction_id = []; total = 2; number = number });
}

abbrev received : List Response
received = response 2 (99 ∷ []) ∷ response 1 (97 ∷ 98 ∷ []) ∷ []

all_numbers : (i : ℕ) → i < 2 → has_number received (suc i) ≡ true
unfolding has_number
all_numbers zero h = refl
all_numbers (suc zero) h = refl
all_numbers (suc (suc i)) h = absurd (omega arith)

topic_message_of_many_example :
    (m : TopicMessage) × (topic_message_of_many received ≡ some m)
    × (m.contents ≡ 97 ∷ 98 ∷ 99 ∷ [])
unfolding piece
topic_message_of_many_example =
    topic_message_of_many_lem (97 ∷ 98 ∷ 99 ∷ []) 2 received (omega arith) (omega arith)
      ((omega arith, omega arith, refl), ((omega arith, omega arith, refl), tt)) all_numbers

-- "abc" with a chunk size of 2.
abbrev abc : Text
abc = 97 ∷ 98 ∷ 99 ∷ []

abbrev abc_chunks : List (Text × SentChunkInfo)
abc_chunks =
    (97 ∷ 98 ∷ [], record { initial_transaction_id = []; total = pos 2; number = pos 1 })
    ∷ (99 ∷ [], record { initial_transaction_id = []; total = pos 2; number = pos 2 })
    ∷ []

freeze_with_example :
    (join_chunks abc_chunks ≡ abc) × All (λ c. length c.0 ≤ 2) abc_chunks × (length abc_chunks ≤ 20)
unfolding freeze_with to_int32 count_chunks chunk_loop piece
freeze_with_example = freeze_with_lem abc 2 20 [] abc_chunks (omega arith) refl
