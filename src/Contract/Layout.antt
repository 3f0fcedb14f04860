-- ===== src/Contract/Layout.antt =====
-- sdk/contract_function_parameters.go: the buffer that `_Build` writes, against the heads and tails of
-- the contract ABI.
use hiero_sdk_go.Base.{
  ℕ, zero, suc, ◌+◌, ◌*◌, ◌/◌, ◌^◌, ◌<◌, ◌≡◌, refl, sym, ap, ◌∙◌, false, inl, inr, Bool-cases, none,
  some, List, [], ◌∷◌, ◌++◌, arith, if◌then◌else◌, length, take, length-append, append_assoc,
  append-nil,
}
use hiero_sdk_go.Base.Text.{Text, codes}
use hiero_sdk_go.Abi.{ok}
use hiero_sdk_go.Abi.Safe.{length-take}
use hiero_sdk_go.Abi.Sizes.{length-assemble}
use hiero_sdk_go.Abi.Words.{word, zeros, low_bytes, low_bytes_zero, length-word, length-zeros}
use hiero_sdk_go.Abi.Spec.{Parts, no_parts, part, heads, heads_size, tails, assemble}
use hiero_sdk_go.Abi.Reads.{take_prefix, drop_prefix}
use hiero_sdk_go.Contract.{
  Argument, ContractFunctionParameters, build, build_loop, total_length, write_at, overwrite,
}

pub zeros_add : (a b : ℕ) → zeros (a + b) ≡ zeros a ++ zeros b
zeros_add zero b = ap (λ (k : ℕ). zeros k) (omega arith)
zeros_add (suc a) b =
    ap (λ (k : ℕ). zeros k) (let e : suc a + b ≡ suc (a + b) = omega arith in e)
    ∙ ap (λ l. 0 ∷ l) (zeros_add a b)

overwrite_all : (zs ys bs : List ℕ) → length zs ≡ length bs → overwrite (zs ++ ys) bs ≡ bs ++ ys
overwrite_all [] [] [] h = refl
overwrite_all [] (y ∷ ys) [] h = refl
overwrite_all [] ys (b ∷ bs) h = absurd (omega arith)
overwrite_all (z ∷ zs) ys [] h = absurd (omega arith)
overwrite_all (z ∷ zs) ys (b ∷ bs) h = ap (λ l. b ∷ l) (overwrite_all zs ys bs (omega arith))

-- A write over as many bytes, behind a prefix.
pub write_at-middle :
    (xs zs ys bs : List ℕ) (i : ℕ)
    → length xs ≡ i
    → length zs ≡ length bs
    → write_at (xs ++ (zs ++ ys)) i bs ≡ xs ++ (bs ++ ys)
unfolding write_at
write_at-middle xs zs ys bs i h k =
    rw (take_prefix i xs (zs ++ ys) h, drop_prefix i xs (zs ++ ys) h, overwrite_all zs ys bs k) refl

-- A uint64 fills the last eight bytes of a word of zeros.
pub word_uint64 : (n : ℕ) → n < 2 ^ 64 → zeros 24 ++ low_bytes 8 n [] ≡ word n
unfolding word
word_uint64 n h =
    sym (low_bytes_zero 24 (low_bytes 8 n []))
    ∙ ap (λ (k : ℕ). low_bytes 24 k (low_bytes 8 n []))
        (let e : 0 ≡ n / 256 / 256 / 256 / 256 / 256 / 256 / 256 / 256 = omega arith in e)

unfoldable pub argument_parts : List Argument → Parts
argument_parts [] = no_parts
argument_parts (a ∷ args) = part a.dynamic a.value (argument_parts args)

-- An argument that is not dynamic is one word.
abbrev pub AreWords : List Argument → Type 0
AreWords [] = Unit {0}
AreWords (a ∷ args) = (a.dynamic ≡ false → length a.value ≡ 32) × AreWords args

-- A head `z ++ low` and a tail `v`, written over zeros behind `A` and behind `B`.
two_writes :
    (A z z' low zn B zv zm v : List ℕ) (i k : ℕ)
    → length A + length z ≡ i
    → length z' ≡ length low
    → length A + (length z + length low) + length zn + length B ≡ k
    → length zv ≡ length v
    → write_at (write_at (A ++ ((z ++ (z' ++ zn)) ++ (B ++ (zv ++ zm)))) i low) k v
      ≡ (A ++ (z ++ low)) ++ (zn ++ ((B ++ v) ++ zm))
two_writes A z z' low zn B zv zm v i k h e l f =
    let open_head : A ++ ((z ++ (z' ++ zn)) ++ (B ++ (zv ++ zm)))
        ≡ (A ++ z) ++ (z' ++ (zn ++ (B ++ (zv ++ zm)))) =
      simp append_assoc in
    let open_tail : (A ++ z) ++ (low ++ (zn ++ (B ++ (zv ++ zm))))
        ≡ (A ++ (z ++ (low ++ (zn ++ B)))) ++ (zv ++ zm) =
      simp append_assoc in
    let closed : (A ++ (z ++ (low ++ (zn ++ B)))) ++ (v ++ zm)
        ≡ (A ++ (z ++ low)) ++ (zn ++ ((B ++ v) ++ zm)) =
      simp append_assoc in
    ap (λ b. write_at (write_at b i low) k v) open_head
    ∙ ap (λ b. write_at b k v)
        (write_at-middle (A ++ z) z' (zn ++ (B ++ (zv ++ zm))) low i
          (omega (arith, length-append A z)) e)
    ∙ ap (λ b. write_at b k v) open_tail
    ∙ write_at-middle (A ++ (z ++ (low ++ (zn ++ B)))) zv zm v k
        (omega (
          arith,
          length-append A (z ++ (low ++ (zn ++ B))),
          length-append z (low ++ (zn ++ B)),
          length-append low (zn ++ B),
          length-append zn B,
        ))
        f
    ∙ closed

head_zeros : (n : ℕ) → zeros (32 * suc n) ≡ zeros 24 ++ (zeros 8 ++ zeros (32 * n))
head_zeros n =
    ap (λ (k : ℕ). zeros k) (let e : 32 * suc n ≡ 24 + (8 + 32 * n) = omega arith in e)
    ∙ zeros_add 24 (8 + 32 * n)
    ∙ ap (λ l. zeros 24 ++ l) (zeros_add 8 (32 * n))

-- The head of an argument and its tail, written over zeros.
write_dynamic_lem :
    (A B v : List ℕ) (n m i k offset : ℕ)
    → length A + 24 ≡ i
    → length A + 32 + 32 * n + length B ≡ k
    → offset < 2 ^ 64
    → write_at
        (write_at
          (A ++ (zeros (32 * suc n) ++ (B ++ zeros (length v + m))))
          i
          (low_bytes 8 offset []))
        k
        v
      ≡ (A ++ word offset) ++ (zeros (32 * n) ++ ((B ++ v) ++ zeros m))
write_dynamic_lem A B v n m i k offset h l small =
    rw (head_zeros n, zeros_add (length v) m, ← word_uint64 offset small)
      (two_writes A (zeros 24) (zeros 8) (low_bytes 8 offset []) (zeros (32 * n)) B
        (zeros (length v)) (zeros m) v i k h refl (omega (arith, length-zeros (32 * n)))
        (length-zeros (length v)))

-- The bytes of the tails.
abbrev tails_total : List Argument → ℕ
tails_total [] = 0
tails_total (a ∷ args) = if a.dynamic then length a.value + tails_total args else tails_total args

total_length_lem : (args : List Argument) → total_length args ≡ 32 * length args + tails_total args
unfolding total_length
total_length_lem [] = refl
total_length_lem (a ∷ args) = ground (arith, total_length_lem args)

word_write :
    (A B v : List ℕ) (n : ℕ) (rest : List ℕ) (i : ℕ)
    → length A ≡ i
    → length v ≡ 32
    → write_at (A ++ (zeros (32 * suc n) ++ rest)) i (take 32 v)
      ≡ (A ++ v) ++ (zeros (32 * n) ++ rest)
word_write A B v n rest i h l =
    let split : zeros (32 * suc n) ≡ zeros 32 ++ zeros (32 * n) =
      ap (λ (k : ℕ). zeros k) (let e : 32 * suc n ≡ 32 + 32 * n = omega arith in e)
      ∙ zeros_add 32 (32 * n) in
    let whole : take 32 v ≡ v = ap (λ b. take 32 b) (sym (append-nil v)) ∙ take_prefix 32 v [] l in
    rw (split, whole, append_assoc (zeros 32) (zeros (32 * n)) rest)
      (write_at-middle A (zeros 32) (zeros (32 * n) ++ rest) v i h (omega arith)
        ∙ sym (append_assoc A v (zeros (32 * n) ++ rest)))

regroup_dynamic :
    (A w h B v t : List ℕ) → (A ++ w) ++ (h ++ ((B ++ v) ++ t)) ≡ A ++ ((w ++ h) ++ (B ++ (v ++ t)))
regroup_dynamic A w h B v t = simp append_assoc

build_loop-parts :
    (args : List Argument) (A B : List ℕ) (j start offset : ℕ)
    → AreWords args
    → length A ≡ j * 32 + start
    → offset + start ≡ length A + 32 * length args + length B
    → offset + tails_total args < 2 ^ 63
    → build_loop args j start offset
        (A ++ (zeros (32 * length args) ++ (B ++ zeros (tails_total args))))
      ≡ A ++ (heads offset (argument_parts args) ++ (B ++ tails (argument_parts args)))
unfolding build_loop argument_parts heads tails
build_loop-parts [] A B j start offset w h k l = refl
build_loop-parts (a ∷ args) A B j start offset w h k l = elim (Bool-cases a.dynamic) [
  | inl d ↦
      let bound : offset + (length a.value + tails_total args) < 2 ^ 63 = rw d at l in
      rw d (
        ap (λ b. build_loop args (suc j) start (offset + length a.value) b)
          (write_dynamic_lem A B a.value (length args) (tails_total args) (j * 32 + start + 24)
            (offset + start) offset (omega arith) (omega arith) (omega arith))
        ∙ build_loop-parts args (A ++ word offset) (B ++ a.value) (suc j) start
            (offset + length a.value) w.1
            (omega (arith, length-append A (word offset), length-word offset))
            (omega
              (arith, length-append A (word offset), length-word offset, length-append B a.value))
            (omega arith)
        ∙ regroup_dynamic A (word offset) _ B a.value _)
  | inr d ↦
      let bound : offset + tails_total args < 2 ^ 63 = rw d at l in
      rw d (
        ap (λ b. build_loop args (suc j) start offset b)
          (word_write A B a.value (length args) (B ++ zeros (tails_total args)) (j * 32 + start) h
            (w.0 d))
        ∙ build_loop-parts args (A ++ a.value) B (suc j) start offset w.1
            (omega (arith, length-append A a.value, w.0 d))
            (omega (arith, length-append A a.value, w.0 d)) (omega arith)
        ∙ append_assoc A a.value _
        ∙ ap (λ b. A ++ b) (sym (append_assoc a.value _ _)))
]

heads_size-words :
    (args : List Argument) → AreWords args → heads_size (argument_parts args) ≡ length args * 32
unfolding heads_size argument_parts
heads_size-words [] w = refl
heads_size-words (a ∷ args) w = elim (Bool-cases a.dynamic) [
  | inl d ↦ rw d (omega (arith, heads_size-words args w.1))
  | inr d ↦ rw d (omega (arith, heads_size-words args w.1, w.0 d))
]

length-tails : (args : List Argument) → length (tails (argument_parts args)) ≡ tails_total args
unfolding tails argument_parts
length-tails [] = refl
length-tails (a ∷ args) = elim (Bool-cases a.dynamic) [
  | inl d ↦
      rw d (omega (arith, length-append a.value (tails (argument_parts args)), length-tails args))
  | inr d ↦ rw d (length-tails args)
]

-- The whole loop, behind the bytes of a selector or of none.
build_from-assemble :
    (prefix : List ℕ) (args : List Argument)
    → AreWords args
    → length (assemble (argument_parts args)) < 2 ^ 63
    → build_loop args 0 (length prefix) (length args * 32) (prefix ++ zeros (total_length args))
      ≡ prefix ++ assemble (argument_parts args)
unfolding assemble
build_from-assemble prefix args w small =
    let size : heads_size (argument_parts args) ≡ length args * 32 = heads_size-words args w in
    let bound : length args * 32 + tails_total args < 2 ^ 63 =
      omega (arith, length-assemble (argument_parts args), length-tails args) in
    rw (total_length_lem args, zeros_add (32 * length args) (tails_total args), size)
      (build_loop-parts args prefix [] 0 (length prefix) (length args * 32) w (omega arith)
        (omega arith) bound)

-- `_Build` of arguments that are a word each or dynamic, with an encoding below 2^63 bytes: the
-- head-tail encoding of the contract ABI, its offsets counted from the first argument, behind four bytes of the hash of `name(types)` where
-- there is a function name and nothing else where there is none.
pub build-assemble :
    (keccak : Text → List ℕ) (c : ContractFunctionParameters) (name : Text)
    → ((s : Text) → length (keccak s) ≡ 32)
    → AreWords c.arguments
    → length (assemble (argument_parts c.arguments)) < 2 ^ 63
    → (build keccak none c ≡ ok (assemble (argument_parts c.arguments)))
      × (build keccak (some name) c
          ≡ ok (
              take 4 (keccak (name ++ (codes "(" ++ (c.function.params ++ codes ")"))))
              ++ assemble (argument_parts c.arguments)))
unfolding build
build-assemble keccak c name h w small =
    let hash : List ℕ = keccak (name ++ (codes "(" ++ (c.function.params ++ codes ")"))) in
    let four : length (take 4 hash) ≡ 4 = length-take 4 hash (omega (arith, h _)) in
    let first : overwrite (zeros 4) (take 4 hash) ≡ take 4 hash =
      ap (λ l. overwrite l (take 4 hash)) (sym (append-nil (zeros 4)))
      ∙ overwrite_all (zeros 4) [] (take 4 hash) (omega arith)
      ∙ append-nil (take 4 hash) in
    (
      ap ok (build_from-assemble [] c.arguments w small),
      rw first (ap ok (build_from-assemble (take 4 hash) c.arguments w small)),
    )
