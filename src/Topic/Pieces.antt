-- ===== src/Topic/Pieces.antt =====
-- sdk/topic_message_submit_transaction.go: the chunks that freezing cuts a message into.
use hiero_sdk_go.Base.{
  ℕ, zero, suc, ◌+◌, ◌-◌, ◌*◌, ◌/◌, ◌%◌, ◌^◌, ◌≤◌, ◌<◌, ◌≡◌, refl, ap, ◌∙◌, List, [], ◌∷◌, ◌++◌,
  arith, ltb, ◌==◌, Bool-cases, inl, inr, length, take, drop, min, All,
}
use native.Mathlib.Nat.{div-add-mod, mod-lt}
use hiero_sdk_go.Base.Text.{Text}
use hiero_sdk_go.Topic.{SentChunkInfo, count_chunks, piece, chunk_loop, chunked, freeze_with}
use hiero_sdk_go.Topic.Chunks.{joined, joined_lem, drop_start}

-- The contents of the chunks, one behind the other.
unfoldable pub join_chunks : List (Text × SentChunkInfo) → Text
join_chunks [] = []
join_chunks ((contents, info) ∷ cs) = contents ++ join_chunks cs

length-take_le : (k : ℕ) (xs : Text) → length (take k xs) ≤ k
length-take_le zero xs = omega arith
length-take_le (suc k) [] = omega arith
length-take_le (suc k) (x ∷ xs) = omega (arith, length-take_le k xs)

length-piece : (msg : Text) (size i : ℕ) → length (piece msg size i) ≤ size
unfolding piece
length-piece msg size i =
    omega
      (arith, length-take_le (min (i * size + size) (length msg) - i * size) (drop (i * size) msg))

join_chunks-chunk_loop :
    (msg : Text) (size : ℕ) (id : Text) (total left i : ℕ)
    → (join_chunks (chunk_loop msg size id total left i) ≡ joined msg size left i)
      × All (λ c. length c.0 ≤ size) (chunk_loop msg size id total left i)
      × (length (chunk_loop msg size id total left i) ≡ left)
unfolding join_chunks chunk_loop joined
join_chunks-chunk_loop msg size id total zero i = (refl, tt, refl)
join_chunks-chunk_loop msg size id total (suc left) i =
    let (text, small, count) = join_chunks-chunk_loop msg size id total left (i + 1) in
    (ap (λ t. piece msg size i ++ t) text, (length-piece msg size i, small), ap suc count)

enough :
    (len size : ℕ)
    → 1 ≤ size
    → len + size < 2 ^ 64
    → len ≤ (len + (size - 1)) % 2 ^ 64 / size * size
enough len size h k =
    let n = len + (size - 1) in
    let same : n % 2 ^ 64 ≡ n = omega arith in
    rw same (grind (arith, div-add-mod n size, mod-lt n {m = size} h))

reaches :
    (msg : Text) (size : ℕ)
    → 1 ≤ size
    → length msg + size < 2 ^ 64
    → length msg ≤ (0 + count_chunks msg size) * size
unfolding count_chunks
reaches msg size h k = omega (arith, enough (length msg) size h k)

-- Where freezing cuts a message into chunks, and the lengths fit in a uint64, the chunks hold the
-- message from its start to its end, each has at most the chunk size, and there are at most as many
-- as the maximum.
pub freeze_with_lem :
    (msg : Text) (size max_chunks : ℕ) (id : Text) (cs : List (Text × SentChunkInfo))
    → length msg + size < 2 ^ 64
    → freeze_with msg size max_chunks id ≡ chunked cs
    → (join_chunks cs ≡ msg) × All (λ c. length c.0 ≤ size) cs × (length cs ≤ max_chunks)
unfolding freeze_with
freeze_with_lem msg size max_chunks id cs small e = elim (Bool-cases (size == 0)) [
  | inl k ↦ cc (rw k at e)
  | inr k ↦ elim (Bool-cases (ltb max_chunks (count_chunks msg size))) [
    | inl k' ↦ cc (rw (k, k') at e)
    | inr k' ↦
        let n = count_chunks msg size in
        let same : cs ≡ chunk_loop msg size id n n 0 = cc (rw (k, k') at e) in
        let (text, each, count) = join_chunks-chunk_loop msg size id n n 0 in
        let positive : 1 ≤ size = ground arith in
        rw same (
          text ∙ joined_lem msg size n 0 (reaches msg size positive small) ∙ drop_start size msg,
          each,
          ground (arith, count),
        )
  ]
]
