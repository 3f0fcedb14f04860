-- ===== src/Abi/Cases.antt =====
-- sdk/abi_decode.go: reading what was encoded, for the types that hold no tuple.
use hiero_sdk_go.Base.{
  ℕ, ◌+◌, ◌*◌, ◌^◌, ◌≤◌, ◌<◌, ◌≡◌, refl, ap, ◌∙◌, Bool, false, List, ◌++◌, arith, ltb,
  if◌then◌else◌, length, take, drop, length-append, append_assoc,
}
use hiero_sdk_go.Abi.{Value, Values, slice, Result, ok, failed, ◌>>=◌, values_length}
use hiero_sdk_go.Abi.Words.{word, length-word}
use hiero_sdk_go.Abi.Decode.{decode_items, decode_array_slice, with_rest, read_bytes, read_length}
use hiero_sdk_go.Abi.Spec.{Parts, heads_size, tails, heads, assemble}
use hiero_sdk_go.Abi.Tuples.{assemble_append, tails_inside}
use hiero_sdk_go.Abi.Reads.{holds_word, take_prefix, drop_prefix, read_bytes-word, read_length-word}

-- A type that is read from one word.
pub word_case :
    (w rest : List ℕ) (v : Value) (dec : List ℕ → Result Value)
    → length w ≡ 32
    → dec w ≡ ok v
    → (if ltb (length (w ++ rest)) 32
        then failed
        else with_rest (w ++ rest) (dec (take 32 (w ++ rest))))
      ≡ ok (v, rest)
word_case w rest v dec h e =
    rw (holds_word w rest (omega arith), take_prefix 32 w rest h, e, drop_prefix 32 w rest h) refl

-- The two types whose bytes stand behind their length, with any bytes behind.
pub bytes_case :
    (b fill rest : List ℕ) (make : List ℕ → Value)
    → length b < 2 ^ 63
    → let input = word (length b) ++ (b ++ fill) ++ rest in
      (if ltb (length input) 32
        then failed
        else with_rest input (read_bytes input >>= λ c. ok (make c)))
      ≡ ok (make b, b ++ (fill ++ rest))
bytes_case b fill rest make h =
    let behind : List ℕ = b ++ (fill ++ rest) in
    rw
      (
        append_assoc (word (length b)) (b ++ fill) rest,
        append_assoc b fill rest,
        holds_word (word (length b)) behind (omega (arith, length-word (length b))),
        read_bytes-word b (fill ++ rest) h,
        drop_prefix 32 (word (length b)) behind (length-word (length b)),
      )
      refl

pub padded_length : (a b : List ℕ) (n k : ℕ) → length a ≡ n → length b ≡ k → length (a ++ b) ≡ n + k
padded_length a b n k h l = omega (arith, length-append a b)

-- `decodeArraySlice` from its loop.
pub sequence_case :
    (dec : List ℕ → Result (Value × List ℕ)) (d : Bool) (make : Values → Value) (n : ℕ)
    (vs : Values) (ps : Parts) (rest : List ℕ)
    → 32 * n ≤ heads_size ps
    → decode_items dec d n (assemble ps ++ rest) (heads (heads_size ps) ps ++ (tails ps ++ rest))
      ≡ ok (vs, tails ps ++ rest)
    → decode_array_slice dec d make (assemble ps ++ rest) n ≡ ok (make vs, tails ps ++ rest)
unfolding decode_array_slice
sequence_case dec d make n vs ps rest h e =
    let enough : ltb (length (assemble ps ++ rest)) (32 * n) ≡ false =
      ground (arith, tails_inside ps rest) in
    let run : decode_items dec d n (assemble ps ++ rest) (assemble ps ++ rest)
        ≡ ok (vs, tails ps ++ rest) =
      ap (λ l. decode_items dec d n (assemble ps ++ rest) l) (assemble_append ps rest) ∙ e in
    rw (enough, run) refl

-- A slice: its length, and its elements behind it.
pub slice_case :
    (dec : List ℕ → Result (Value × List ℕ)) (d : Bool) (vs : Values) (ps : Parts) (rest : List ℕ)
    → 32 * values_length vs ≤ heads_size ps
    → heads_size ps < 2 ^ 63
    → decode_items dec d
        (values_length vs)
        (assemble ps ++ rest)
        (heads (heads_size ps) ps ++ (tails ps ++ rest))
      ≡ ok (vs, tails ps ++ rest)
    → let input = word (values_length vs) ++ assemble ps ++ rest in
      (if ltb (length input) 32
        then failed
        else read_length input >>= λ n. decode_array_slice dec d slice (drop 32 input) n)
      ≡ ok (slice vs, tails ps ++ rest)
slice_case dec d vs ps rest h small e =
    let n : ℕ = values_length vs in
    rw
      (
        append_assoc (word n) (assemble ps) rest,
        holds_word (word n) (assemble ps ++ rest) (omega (arith, length-word n)),
        read_length-word n (assemble ps ++ rest) (omega arith)
            (omega (arith, tails_inside ps rest)),
        drop_prefix 32 (word n) (assemble ps ++ rest) (length-word n),
      )
      (sequence_case dec d slice n vs ps rest h e)
