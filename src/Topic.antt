-- ===== src/Topic.antt =====
-- sdk/topic_message_submit_transaction.go, sdk/topic_message_query.go, sdk/topic_message.go and
-- sdk/topic_message_chunk.go: a message is cut into chunks, and put together again from the
-- responses of a subscription. Bytes, hashes and transaction IDs are texts.
pub mod Chunks
pub mod Pieces
mod Tests
use hiero_sdk_go.Base.{
  ℕ, zero, suc, ◌+◌, ◌-◌, ◌*◌, ◌/◌, ◌%◌, ◌^◌, Bool, true, false, ◌||◌, Option, none, some, List, [],
  ◌∷◌, ◌++◌, map, ltb, ◌==◌, if◌then◌else◌, length, get_elem?, set, take, drop, min, bind,
}
use hiero_sdk_go.Base.Int.{ℤ, pos, negsuc}
use hiero_sdk_go.Base.Text.{Text, text_eq}
use hiero_sdk_go.Execute.{GrpcError}

-- Of a chunk that is received: a total and a number are int32; a negative one, which is never in range, is held as 0.
pub record ChunkInfo : Type 0 where
  pub initial_transaction_id : Text
  pub total : ℕ
  pub number : ℕ

-- `(len(message) + (chunkSize - 1)) / chunkSize`
unfoldable pub count_chunks : Text → ℕ → ℕ
count_chunks message chunk_size = (length message + (chunk_size - 1)) % 2 ^ 64 / chunk_size

-- `message[start:end]` of the chunk at `i`.
unfoldable pub piece : Text → ℕ → ℕ → Text
piece message chunk_size i =
    let start = i * chunk_size in
    let stop = min (start + chunk_size) (length message) in take (stop - start) (drop start message)

-- `ConsensusMessageChunkInfo` of a chunk that is sent, whose numbers are of int32.
pub record SentChunkInfo : Type 0 where
  pub initial_transaction_id : Text
  pub total : ℤ
  pub number : ℤ

-- The conversion to int32, which wraps; `int32(i) + 1` is that of `i + 1`.
unfoldable pub to_int32 : ℕ → ℤ
to_int32 n =
    if ltb (n % 2 ^ 32) (2 ^ 31) then pos (n % 2 ^ 32) else negsuc (2 ^ 32 - 1 - n % 2 ^ 32)

-- The loop, with `left` chunks left: the contents and the information of each chunk.
unfoldable pub chunk_loop : Text → ℕ → Text → ℕ → ℕ → ℕ → List (Text × SentChunkInfo)
chunk_loop message chunk_size id total zero i = []
chunk_loop message chunk_size id total (suc left) i =
    (
      piece message chunk_size i,
      record { initial_transaction_id = id; total = to_int32 total; number = to_int32 (i + 1) },
    )
    ∷ chunk_loop message chunk_size id total left (i + 1)

pub data Frozen : Type 0 where
  chunked : List (Text × SentChunkInfo) → Frozen
  invalid_chunk_size : Frozen
  max_chunks_exceeded : ℕ → ℕ → Frozen

-- `FreezeWith`, from the check of the chunk size on.
unfoldable pub freeze_with : Text → ℕ → ℕ → Text → Frozen
freeze_with message chunk_size max_chunks id =
    let chunks = count_chunks message chunk_size in
    if chunk_size == 0
    then invalid_chunk_size
    else if ltb max_chunks chunks
    then max_chunks_exceeded chunks max_chunks
    else chunked (chunk_loop message chunk_size id chunks chunks 0)

-- `ConsensusTopicResponse`
pub record Response : Type 0 where
  pub consensus_timestamp : ℤ
  pub message : Text
  pub running_hash : Text
  pub sequence_number : ℕ
  pub chunk_info : Option ChunkInfo

pub record TopicMessageChunk : Type 0 where
  pub consensus_timestamp : ℤ
  pub content_size : ℕ
  pub running_hash : Text
  pub sequence_number : ℕ

pub record TopicMessage : Type 0 where
  pub consensus_timestamp : ℤ
  pub contents : Text
  pub running_hash : Text
  pub sequence_number : ℕ
  pub chunks : List (Option TopicMessageChunk)
  pub transaction_id : Option Text

unfoldable pub new_topic_message_chunk : Response → TopicMessageChunk
new_topic_message_chunk resp = record {
  consensus_timestamp = resp.consensus_timestamp;
  content_size = length resp.message;
  running_hash = resp.running_hash;
  sequence_number = resp.sequence_number;
}

unfoldable pub topic_message_of_single : Response → TopicMessage
topic_message_of_single resp = record {
  consensus_timestamp = resp.consensus_timestamp;
  contents = resp.message;
  running_hash = resp.running_hash;
  sequence_number = resp.sequence_number;
  chunks = [];
  transaction_id = none;
}

-- The slots of both arrays, `chunks` and `messages`: an empty one is the zero value. `none` is the
-- panic of an index out of range.
abbrev pub place_at : List (Option Response) → Response → ℕ → Option (List (Option Response))
place_at slots m zero = none
place_at slots m (suc i) = if ltb i (length slots) then some (set slots i (some m)) else none

unfoldable pub place : List (Option Response) → Response → Option (List (Option Response))
place slots m = bind m.chunk_info λ info. place_at slots m info.number

-- The loop over the responses.
unfoldable pub fill : List Response → List (Option Response) → Option (List (Option Response))
fill [] slots = some slots
fill (m ∷ ms) slots = bind (place slots m) (fill ms)

unfoldable pub empty_slots : ℕ → List (Option Response)
empty_slots zero = []
empty_slots (suc n) = none ∷ empty_slots n

abbrev pub contents_of : Option Response → Text
contents_of none = []
contents_of (some m) = m.message

abbrev pub chunk_of : Option Response → Option TopicMessageChunk
chunk_of none = none
chunk_of (some m) = some (new_topic_message_chunk m)

unfoldable pub join_slots : List (Option Response) → Text
join_slots [] = []
join_slots (slot ∷ slots) = contents_of slot ++ join_slots slots

abbrev pub id_of : Option ChunkInfo → Option Text
id_of none = none
id_of (some info) = some info.initial_transaction_id

abbrev pub first_id : List Response → Option Text
first_id [] = none
first_id (m ∷ ms) = id_of m.chunk_info

-- `_TopicMessageOfMany`: of the last response received, the time, the hash and the number.
unfoldable pub topic_message_of_many : List Response → Option TopicMessage
topic_message_of_many message = bind (fill message (empty_slots (length message))) λ slots.
    bind (get_elem? message (length message - 1)) λ last. some (record {
      consensus_timestamp = last.consensus_timestamp;
      contents = join_slots slots;
      running_hash = last.running_hash;
      sequence_number = last.sequence_number;
      chunks = map chunk_of slots;
      transaction_id = first_id message;
    })

-- The chunks received so far of each message, by its transaction ID.
unfoldable pub pending : Text → List (Text × List Response) → List Response
pending id [] = []
pending id ((key, ms) ∷ m) = if text_eq key id then ms else pending id m

unfoldable pub without : Text → List (Text × List Response) → List (Text × List Response)
without id [] = []
without id ((key, ms) ∷ m) = if text_eq key id then m else (key, ms) ∷ without id m

abbrev pub delivered :
    List (Text × List Response)
    → Option TopicMessage
    → Option (List (Text × List Response) × Option TopicMessage)
delivered m none = none
delivered m (some message) = some (m, some message)

abbrev pub consume_chunk :
    List (Text × List Response)
    → Response
    → ChunkInfo
    → Option (List (Text × List Response) × Option TopicMessage)
consume_chunk m resp info =
    let message = pending info.initial_transaction_id m ++ (resp ∷ []) in
    let rest = without info.initial_transaction_id m in
    if length message % 2 ^ 32 == info.total
    then delivered rest (topic_message_of_many message)
    else some ((info.initial_transaction_id, message) ∷ rest, none)

-- `consumeMessages` on one response: the map, and the message that is handed on, if there is one.
-- The result none is a panic.
abbrev pub consume_info :
    List (Text × List Response)
    → Response
    → Option ChunkInfo
    → Option (List (Text × List Response) × Option TopicMessage)
consume_info m resp none = some (m, some (topic_message_of_single resp))
consume_info m resp (some info) =
    if info.total == 1
    then some (m, some (topic_message_of_single resp))
    else consume_chunk m resp info

unfoldable pub consume :
    List (Text × List Response)
    → Response
    → Option (List (Text × List Response) × Option TopicMessage)
consume m resp = consume_info m resp resp.chunk_info

abbrev found : (Text → Bool) → Option Text → Bool
found rst_stream none = false
found rst_stream (some message) = rst_stream message

-- `_DefaultRetryHandler`; the codes are NotFound, ResourceExhausted, Unavailable and Internal.
unfoldable pub default_retry_handler : (Text → Bool) → GrpcError → Bool
default_retry_handler rst_stream err =
    if err.code == 5 || err.code == 8 || err.code == 14
    then true
    else if err.code == 13
    then found rst_stream err.message
    else false
