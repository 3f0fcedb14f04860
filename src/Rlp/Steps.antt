-- ===== src/Rlp/Steps.antt =====
-- sdk/rlp.go: one call of `decodeBytes` on each kind of prefix that `Write` produces.
use hiero_sdk_go.Base.{
  ℕ, suc, ◌+◌, ◌-◌, ◌^◌, ◌≤◌, ◌<◌, ◌≡◌, ap, ◌∙◌, ◌≢◌, inl, inr, Option, some, List, [], ◌∷◌, ◌++◌,
  arith, ltb, Bool-cases, length, length-append,
}
use hiero_sdk_go.Base.Cursor.{IsAt, IsAt-head, IsAt-next, IsAt-skip}
use hiero_sdk_go.Rlp.{
  RlpItem, Outcome, encode_binary, encode_length, ok, int_add, read_length, read_string, with_value,
  mark_list, ◌>>=◌, decode_prefix, decode_bytes, decode_children,
}
use hiero_sdk_go.Rlp.Lengths.{
  length-encode_binary, read_length-encode_binary, int_add_small, slice-IsAt,
}

-- A length below 56 is one byte; a longer one is a byte that counts the bytes of its binary form.
pub encode_length_short :
    (n offset : ℕ) → n < 56 → offset ≤ 192 → encode_length n offset ≡ (offset + n) ∷ []
unfolding encode_length
encode_length_short n offset h k = ground arith

pub encode_length_long :
    (n offset : ℕ)
    → 56 ≤ n
    → offset ≤ 192
    → encode_length n offset ≡ (length (encode_binary n) + offset + 55) ∷ encode_binary n
unfolding encode_length
encode_length_long n offset h k = ground (arith, length-encode_binary n)

read_string-IsAt :
    (it : RlpItem) (bytes v s : List ℕ) (i : ℕ)
    → IsAt bytes i (v ++ s)
    → length bytes < 2 ^ 63
    → read_string it bytes i (length v) ≡ ok (with_value it v, i + length v)
unfolding read_string
read_string-IsAt it bytes v s i p h = rw (slice-IsAt bytes v s i p h)

module _ (f : ℕ) (it : RlpItem) (bytes : List ℕ) where
  decode_bytes-head :
      (b i : ℕ) (s : List ℕ)
      → IsAt bytes i (b ∷ s)
      → decode_bytes (suc f) it bytes i
        ≡ decode_prefix it bytes (i + 1) b (decode_children f it bytes)
  unfolding decode_bytes
  decode_bytes-head b i s p = ground (arith, IsAt-head p)

-- A byte below 128 stands for itself.
pub decode_bytes_byte :
    (f : ℕ) (it : RlpItem) (bytes : List ℕ) (b i : ℕ) (s : List ℕ)
    → b < 128
    → IsAt bytes i (b ∷ s)
    → decode_bytes (suc f) it bytes i ≡ ok (with_value it (b ∷ []), i + 1)
unfolding decode_prefix
decode_bytes_byte f it bytes b i s h p = rw (decode_bytes-head f it bytes b i s p) (ground arith)

-- A string below 56 bytes, and a longer one.
decode_prefix_string :
    (it : RlpItem) (bytes : List ℕ) (n i : ℕ) (children : ℕ → Option ℕ → Outcome (RlpItem × ℕ))
    → n < 56
    → decode_prefix it bytes i (128 + n) children ≡ read_string it bytes i n
unfolding decode_prefix
decode_prefix_string it bytes n i children h =
    let e : 128 + n - 128 ≡ n = omega arith in ground (arith, e)

decode_prefix_long_string :
    (it : RlpItem) (bytes : List ℕ) (k i n start : ℕ)
    (children : ℕ → Option ℕ → Outcome (RlpItem × ℕ))
    → 1 ≤ k
    → k ≤ 8
    → read_length k bytes 0 i ≡ ok (n, start)
    → decode_prefix it bytes i (k + 128 + 55) children ≡ read_string it bytes start n
unfolding decode_prefix
decode_prefix_long_string it bytes k i n start children h h' e =
    let d : k + 128 + 55 - 183 ≡ k = omega arith in ground (arith, d)

decode_prefix_list :
    (it : RlpItem) (bytes : List ℕ) (n i : ℕ) (children : ℕ → Option ℕ → Outcome (RlpItem × ℕ))
    → n < 55
    → decode_prefix it bytes i (192 + n) children ≡ (children i (int_add i n) >>= mark_list)
unfolding decode_prefix
decode_prefix_list it bytes n i children h =
    let e : 192 + n - 192 ≡ n = omega arith in ground (arith, e)

decode_prefix_long_list :
    (it : RlpItem) (bytes : List ℕ) (k i n start : ℕ)
    (children : ℕ → Option ℕ → Outcome (RlpItem × ℕ))
    → read_length k bytes 0 i ≡ ok (n, start)
    → decode_prefix it bytes i (k + 192 + 55) children
      ≡ (children start (int_add start n) >>= mark_list)
unfolding decode_prefix
decode_prefix_long_list it bytes k i n start children e =
    let d : k + 192 + 55 - 247 ≡ k = omega arith in ground (arith, d)

module _ (f : ℕ) (it : RlpItem) (bytes : List ℕ) (small : length bytes < 2 ^ 63) where
  short_string :
      (i : ℕ) (v s : List ℕ)
      → length v < 56
      → IsAt bytes i ((128 + length v) ∷ (v ++ s))
      → decode_bytes (suc f) it bytes i ≡ ok (with_value it v, i + 1 + length v)
  short_string i v s h p =
      decode_bytes-head f it bytes _ i _ p
      ∙ decode_prefix_string it bytes (length v) (i + 1) _ h
      ∙ read_string-IsAt it bytes v s (i + 1) (IsAt-next p) small

  long_string :
      (i : ℕ) (v s : List ℕ)
      → 56 ≤ length v
      → length v < 2 ^ 63
      → (let b = encode_binary (length v) in
          IsAt bytes i ((length b + 128 + 55) ∷ (b ++ (v ++ s)))
          → decode_bytes (suc f) it bytes i ≡ ok (with_value it v, i + 1 + length b + length v))
  long_string i v s h k p =
      let (lo, hi) = length-encode_binary (length v) (omega arith) in
      decode_bytes-head f it bytes _ i _ p
      ∙ decode_prefix_long_string it bytes _ (i + 1) (length v) _ _ lo hi
          (read_length-encode_binary (length v) bytes (v ++ s) (i + 1) (omega arith) (IsAt-next p))
      ∙ read_string-IsAt it bytes v s _
          (IsAt-skip (encode_binary (length v)) (v ++ s) (IsAt-next p)) small

  -- A string behind its length is read whole.
  pub decode_bytes_string :
      (i : ℕ) (v s : List ℕ)
      → IsAt bytes i (encode_length (length v) 0x80 ++ (v ++ s))
      → decode_bytes (suc f) it bytes i
        ≡ ok (with_value it v, i + (length (encode_length (length v) 0x80) + length v))
  decode_bytes_string i v s p = elim (Bool-cases (ltb (length v) 56)) [
    | inl short ↦
        let e = encode_length_short (length v) 128 (ground arith) (omega arith) in
        rw e (
          short_string i v s (ground arith) (rw e at p)
          ∙ ap (λ (n : ℕ). ok (with_value it v, n)) (omega arith))
    | inr long ↦
        let e = encode_length_long (length v) 128 (ground arith) (omega arith) in
        let fits : length v < 2 ^ 63 = omega (
          arith,
          p.ends,
          length-append (encode_length (length v) 0x80) (v ++ s),
          length-append v s,
        ) in
        rw e (
          long_string i v s (ground arith) fits (rw e at p)
          ∙ ap (λ (n : ℕ). ok (with_value it v, n)) (omega arith))
  ]

  -- A list's length leads to the loop over its children, unless it is 55.
  pub decode_bytes_list :
      (i n : ℕ) (s : List ℕ)
      → n ≢ 55
      → n ≤ length s
      → IsAt bytes i (encode_length n 0xC0 ++ s)
      → (let start = i + length (encode_length n 0xC0) in
          decode_bytes (suc f) it bytes i
          ≡ (decode_children f it bytes start (some (start + n)) >>= mark_list))
  decode_bytes_list i n s h k p = elim (Bool-cases (ltb n 56)) [
    | inl short ↦
        let e = encode_length_short n 192 (ground arith) (omega arith) in
        let q : IsAt bytes i ((192 + n) ∷ s) = rw e at p in
        rw e (
          decode_bytes-head f it bytes _ i _ q
          ∙ decode_prefix_list it bytes n (i + 1) _ (ground arith)
          ∙ rw (int_add_small (i + 1) n (omega (arith, q.ends))))
    | inr long ↦
        let e = encode_length_long n 192 (ground arith) (omega arith) in
        let q : IsAt bytes i ((length (encode_binary n) + 192 + 55) ∷ (encode_binary n ++ s)) =
          rw e at p in
        let start = i + 1 + length (encode_binary n) in
        rw e (
          decode_bytes-head f it bytes _ i _ q
          ∙ decode_prefix_long_list it bytes _ (i + 1) n _ _ (
              read_length-encode_binary n bytes s (i + 1)
                (omega (arith, q.ends, length-append (encode_binary n) s)) (IsAt-next q))
          ∙ rw (int_add_small start n (omega (arith, q.ends, length-append (encode_binary n) s))) (
              ap (λ (m : ℕ). decode_children f it bytes m (some (m + n)) >>= mark_list)
                (omega arith)))
  ]
