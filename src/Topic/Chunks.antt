-- ===== src/Topic/Chunks.antt =====
-- sdk/topic_message.go and sdk/topic_message_submit_transaction.go: the chunks of a message, in
-- whatever order they are received, are put together to the message.
use hiero_sdk_go.Base.{
  ℕ, zero, suc, ◌+◌, ◌-◌, ◌*◌, ◌≤◌, ◌<◌, ◌≡◌, refl, sym, ap, ◌∙◌, inl, inr, Bool, true, false, ◌||◌,
  Option, none, some, List, [], ◌∷◌, ◌++◌, arith, ◌==◌, if◌then◌else◌, lt→ltb, ==_iff, length,
  get_elem?, get_elem?-some, length-set, set, drop, drop-ge, drop-drop, length-drop, take-drop-min,
  All, bind, Bool-cases, min, map,
}
use hiero_sdk_go.Base.Text.{Text}
use hiero_sdk_go.Topic.{
  ChunkInfo, piece, Response, chunk_of, first_id, TopicMessage, place_at, place, fill, empty_slots,
  contents_of, join_slots, topic_message_of_many,
}

module _ (msg : Text) (size : ℕ) where
  -- The pieces from `i` on, one behind the other.
  unfoldable pub joined : ℕ → ℕ → Text
  joined zero i = []
  joined (suc n) i = piece msg size i ++ joined n (i + 1)

  taken :
      (i : ℕ)
      → min (i * size + size) (length msg) - i * size ≡ min size (length (drop (i * size) msg))
  taken i = omega (arith, length-drop (i * size) msg)

  next_start : (i : ℕ) → (i + 1) * size ≡ i * size + size
  next_start i = grind arith

  pub joined_lem : (n i : ℕ) → length msg ≤ (i + n) * size → joined n i ≡ drop (i * size) msg
  unfolding joined piece
  joined_lem zero i h = sym (drop-ge (i * size) msg (grind arith))
  joined_lem (suc n) i h =
      ap (λ t. piece msg size i ++ t)
        (joined_lem n (i + 1) (grind arith)
          ∙ ap (λ k. drop k msg) (next_start i)
          ∙ drop-drop (i * size) size msg)
      ∙ take-drop-min _ size (drop (i * size) msg) (taken i)

abbrev pub number_of : Option ChunkInfo → ℕ
number_of none = 0
number_of (some info) = info.number

-- A response that has one of the first `n` chunks of the message.
abbrev pub IsPieceOf : Text → ℕ → ℕ → Response → Type 0
IsPieceOf msg size n m =
    (1 ≤ number_of m.chunk_info)
    × (number_of m.chunk_info ≤ n)
    × (m.message ≡ piece msg size (number_of m.chunk_info - 1))

unfoldable pub has_number : List Response → ℕ → Bool
has_number [] k = false
has_number (m ∷ ms) k = (number_of m.chunk_info == k) || has_number ms k

text_at : List (Option Response) → ℕ → Option Text
text_at [] i = none
text_at (slot ∷ slots) zero = some (contents_of slot)
text_at (slot ∷ slots) (suc i) = text_at slots i

text_at-set :
    (slots : List (Option Response)) (j i : ℕ) (m : Response)
    → j < length slots
    → text_at (set slots j (some m)) i ≡ (if i == j then some m.message else text_at slots i)
unfolding text_at
text_at-set [] j i m h = absurd (omega arith)
text_at-set (slot ∷ slots) zero zero m h = ground arith
text_at-set (slot ∷ slots) zero (suc i) m h = ground arith
text_at-set (slot ∷ slots) (suc j) zero m h = ground arith
text_at-set (slot ∷ slots) (suc j) (suc i) m h = ground (arith, text_at-set slots j i m)

record Filled (msg : Text) (size : ℕ) (ms : List Response) (slots : List (Option Response))
    : Type 0 where
  after : List (Option Response)
  returns : fill ms slots ≡ some after
  same_length : length after ≡ length slots
  each :
      (i : ℕ)
      → text_at after i
        ≡ (if has_number ms (suc i) then some (piece msg size i) else text_at slots i)

place_info :
    (m : Response) (slots : List (Option Response)) (j : ℕ) (o : Option ChunkInfo)
    → number_of o ≡ suc j
    → j < length slots
    → bind o (λ info. place_at slots m info.number) ≡ some (set slots j (some m))
place_info m slots j none e h = absurd (omega arith)
place_info m slots j (some info) e h = rw (e, lt→ltb j (length slots) h) refl

-- What is at `i` once the response with the number `k` is placed, and the rest after it.
text_here :
    (k i j : ℕ) (b : Bool) (new old piece_i : Option Text)
    → k ≡ suc j
    → new ≡ (if i == j then piece_i else old)
    → (if b then piece_i else new) ≡ (if (k == suc i) || b then piece_i else old)
text_here k i j b new old piece_i e h = ground arith

same_piece :
    (msg : Text) (size i j : ℕ) (old : Option Text)
    → (if i == j then some (piece msg size j) else old)
      ≡ (if i == j then some (piece msg size i) else old)
same_piece msg size i j old = elim (Bool-cases (i == j)) [
  | inl e ↦ rw e (ap (λ k. some (piece msg size k)) (sym ((==_iff i j).0 e)))
  | inr e ↦ rw e refl
]

fill_round :
    (msg : Text) (size : ℕ) (m : Response) (ms : List Response) (slots : List (Option Response))
    (j : ℕ)
    → number_of m.chunk_info ≡ suc j
    → j < length slots
    → m.message ≡ piece msg size j
    → Filled msg size ms (set slots j (some m))
    → Filled msg size (m ∷ ms) slots
unfolding fill has_number place
fill_round msg size m ms slots j number h e rest = record {
  after = rest.after;
  returns = rw (place_info m slots j m.chunk_info number h) rest.returns;
  same_length = rest.same_length ∙ length-set slots j (some m);
  each = λ i.
      rest.each i
      ∙ text_here (number_of m.chunk_info) i j (has_number ms (suc i)) _ (text_at slots i)
          (some (piece msg size i)) number
          (text_at-set slots j i m h
            ∙ ap (λ t. (if i == j then some t else text_at slots i)) e
            ∙ same_piece msg size i j (text_at slots i));
}

fill_lem :
    (msg : Text) (size : ℕ) (ms : List Response) (slots : List (Option Response))
    → All (IsPieceOf msg size (length slots)) ms
    → Filled msg size ms slots
unfolding fill has_number
fill_lem msg size [] slots h = record {
  after = slots;
  returns = refl;
  same_length = refl;
  each = λ i. refl;
}
fill_lem msg size (m ∷ ms) slots ((lo, hi, e), hs) =
    let j = number_of m.chunk_info - 1 in
    fill_round msg size m ms slots j (omega arith) (omega arith) e
      (fill_lem msg size ms (set slots j (some m)) (rw (length-set slots j (some m)) hs))

join_slots_lem :
    (msg : Text) (size : ℕ) (slots : List (Option Response)) (k : ℕ)
    → ((i : ℕ) → i < length slots → text_at slots i ≡ some (piece msg size (i + k)))
    → join_slots slots ≡ joined msg size (length slots) k
unfolding join_slots joined text_at
join_slots_lem msg size [] k h = refl
join_slots_lem msg size (slot ∷ slots) k h =
    let here : contents_of slot ≡ piece msg size (0 + k) = cc (h 0 (omega arith)) in
    rw
      (
        here,
        join_slots_lem msg size slots (k + 1)
            (λ i lt. h (suc i) (omega arith) ∙ ap (λ j. some (piece msg size j)) (omega arith)),
      )
      (ap (λ j. piece msg size j ++ joined msg size (length slots) (k + 1)) (omega arith))

length-empty_slots : (n : ℕ) → length (empty_slots n) ≡ n
unfolding empty_slots
length-empty_slots zero = refl
length-empty_slots (suc n) = ap suc (length-empty_slots n)

made_of :
    (ms : List Response) (after : List (Option Response)) (last : Response)
    → fill ms (empty_slots (length ms)) ≡ some after
    → get_elem? ms (length ms - 1) ≡ some last
    → (m : TopicMessage) × (topic_message_of_many ms ≡ some m) × (m.contents ≡ join_slots after)
unfolding topic_message_of_many
made_of ms after last f e = (
  record {
    consensus_timestamp = last.consensus_timestamp;
    contents = join_slots after;
    running_hash = last.running_hash;
    sequence_number = last.sequence_number;
    chunks = map chunk_of after;
    transaction_id = first_id ms;
  },
  rw (f, e) refl,
  refl,
)

pub drop_start : (size : ℕ) (msg : Text) → drop (0 * size) msg ≡ msg
drop_start size msg = let nothing : 0 * size ≡ 0 = omega arith in ap (λ k. drop k msg) nothing

-- Where the responses received are chunks of a message, as many as they are, each number among
-- them, and the chunks reach to the message's end, they are put together to the whole message, in
-- whatever order they came.
pub topic_message_of_many_lem :
    (msg : Text) (size : ℕ) (ms : List Response)
    → 1 ≤ length ms
    → length msg ≤ length ms * size
    → All (IsPieceOf msg size (length ms)) ms
    → ((i : ℕ) → i < length ms → has_number ms (suc i) ≡ true)
    → (m : TopicMessage) × (topic_message_of_many ms ≡ some m) × (m.contents ≡ msg)
topic_message_of_many_lem msg size ms one reach pieces all =
    let slots = length-empty_slots (length ms) in
    let f = fill_lem msg size ms (empty_slots (length ms)) (rw slots pieces) in
    let (last, e) = get_elem?-some ms (length ms - 1) (omega arith) in
    let (m, made, contents) = made_of ms f.after last f.returns e in
    let whole : length f.after ≡ length ms = f.same_length ∙ slots in
    (
      m,
      made,
      contents
          ∙ join_slots_lem msg size f.after 0 (λ i lt.
            f.each i
            ∙ rw (all i (omega (arith, whole))) (ap (λ j. some (piece msg size j)) (omega arith)))
          ∙ joined_lem msg size (length f.after) 0 (rw whole (grind arith))
          ∙ drop_start size msg,
    )
