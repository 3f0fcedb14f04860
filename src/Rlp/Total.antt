-- ===== src/Rlp/Total.antt =====
-- sdk/rlp.go: `Read` on any input, and the one list length that it takes for another prefix.
use hiero_sdk_go.Base.{
  ltb, ℕ, zero, suc, ◌+◌, ◌-◌, ◌*◌, ◌≤◌, ◌<◌, ◌≡◌, refl, ◌∙◌, ◌≢◌, ◌⊎◌, inl, inr, Option, some,
  none, List, [], ◌∷◌, true, false, arith, leb, Bool, ◌&&◌, if◌then◌else◌, Bool-cases, Option-cases,
  length, take, drop, get_elem?, get_elem?-lt,
}
use hiero_sdk_go.Rlp.{
  RlpType, RlpItem, RlpItems, item, list_type, nil, item_type, new_rlp_item, write, write_items,
  push_back, Outcome, ok, panicked, out_of_fuel, index_byte, int_add, slice_to, slice, read_length,
  read_string, mark_list, ◌>>=◌, before, decode_prefix, decode_bytes, decode_children, read,
  encode_length,
}
use hiero_sdk_go.Rlp.RoundTrip.{read_lem, write-list, length-write}

-- A call does not run out of fuel, and where it returns, the index that it returns satisfies `P`.
abbrev Ends {ℓ} : {X : Type ℓ} → (ℕ → Type 0) → Outcome (X × ℕ) → Type 0
Ends P (ok (x, j)) = P j
Ends P panicked = Unit {0}
Ends P out_of_fuel = ⊥

Ends-bind {ℓ κ} :
    {X : Type ℓ} {Y : Type κ} (P Q : ℕ → Type 0) (m : Outcome (X × ℕ)) (k : X × ℕ → Outcome (Y × ℕ))
    → Ends P m
    → ((x : X) (j : ℕ) → P j → Ends Q (k (x, j)))
    → Ends Q (m >>= k)
Ends-bind P Q (ok (x, j)) k h rest = rest x j h
Ends-bind P Q panicked k h rest = tt
Ends-bind P Q out_of_fuel k h rest = elim h [ ]

Ends-mono {ℓ} :
    {X : Type ℓ} (P Q : ℕ → Type 0) (m : Outcome (X × ℕ))
    → ((j : ℕ) → P j → Q j)
    → Ends P m
    → Ends Q m
Ends-mono P Q (ok (x, j)) h e = h j e
Ends-mono P Q panicked h e = tt
Ends-mono P Q out_of_fuel h e = elim e [ ]

Ends-if {ℓ} :
    {X : Type ℓ} (P : ℕ → Type 0) (b : Bool) (x y : Outcome (X × ℕ))
    → Ends P x
    → Ends P y
    → Ends P (if b then x else y)
Ends-if P true x y h k = h
Ends-if P false x y h k = k

read_length-Ends :
    (k : ℕ) (bytes : List ℕ) (acc i : ℕ) → Ends (λ j. i ≤ j) (read_length k bytes acc i)
unfolding read_length
read_length-Ends zero bytes acc i = omega arith
read_length-Ends (suc k) bytes acc i = elim (Option-cases (get_elem? bytes i)) [
  | inl e ↦ rw (e, index_byte) tt
  | inr (b, e) ↦
      rw (e, index_byte)
        (Ends-mono (λ j. i + 1 ≤ j) (λ j. i ≤ j) _ (λ j h. omega arith)
          (read_length-Ends k bytes _ (i + 1)))
]

slice_to-cases :
    (bytes : List ℕ) (i : ℕ) (stop : Option ℕ)
    → (slice_to bytes i stop ≡ panicked) ⊎ ((v : List ℕ) × (slice_to bytes i stop ≡ ok v))
unfolding slice_to
slice_to-cases bytes i none = inl refl
slice_to-cases bytes i (some stop) = elim (Bool-cases (leb i stop && leb stop (length bytes))) [
  | inl e ↦ inr (take (stop - i) (drop i bytes), rw e)
  | inr e ↦ inl (rw e)
]

read_string-Ends :
    (it : RlpItem) (bytes : List ℕ) (i n : ℕ) → Ends (λ j. i ≤ j) (read_string it bytes i n)
unfolding read_string slice
read_string-Ends it bytes i n = elim (slice_to-cases bytes i (int_add i n)) [
  | inl e ↦ rw e tt
  | inr (v, e) ↦ rw e (omega arith)
]

mark_list-Ends : (i j : ℕ) (it : RlpItem) → i ≤ j → Ends (λ k. i ≤ k) (mark_list (it, j))
mark_list-Ends i j (item t v cs) h = h

decode_prefix-Ends :
    (it : RlpItem) (bytes : List ℕ) (i p : ℕ) (children : ℕ → Option ℕ → Outcome (RlpItem × ℕ))
    → ((start : ℕ) (stop : Option ℕ) → i ≤ start → Ends (λ j. i ≤ j) (children start stop))
    → Ends (λ j. i ≤ j) (decode_prefix it bytes i p children)
unfolding decode_prefix
decode_prefix-Ends it bytes i p children loop = elim (Bool-cases (ltb p 0x80)) [
  | inl e ↦ rw e (omega arith)
  | inr e ↦ rw e (elim (Bool-cases (ltb p 0xB8)) [
    | inl e ↦ rw e (read_string-Ends it bytes i (p - 0x80))
    | inr e ↦ rw e (elim (Bool-cases (ltb p 0xC0)) [
      | inl e ↦ rw e (
          Ends-bind P P (read_length (p - 0xB7) bytes 0 i)
            (λ (n, start). read_string it bytes start n) (read_length-Ends (p - 0xB7) bytes 0 i)
            string)
      | inr e ↦ rw e (elim (Bool-cases (ltb p 0xF7)) [
        | inl e ↦ rw e (mark i (int_add i (p - 0xC0)) (omega arith))
        | inr e ↦ rw e (
            Ends-bind P P (read_length (p - 0xF7) bytes 0 i)
              (λ (n, start). children start (int_add start n) >>= mark_list)
              (read_length-Ends (p - 0xF7) bytes 0 i) (λ n start. mark start (int_add start n)))
      ])
    ])
  ])
]
  where
    P : ℕ → Type 0
    P j = i ≤ j

    string : (n start : ℕ) → i ≤ start → Ends (λ j. i ≤ j) (read_string it bytes start n)
    string n start h =
        Ends-mono (λ j. start ≤ j) P (read_string it bytes start n) (λ j k. omega arith)
          (read_string-Ends it bytes start n)

    mark :
        (start : ℕ) (stop : Option ℕ)
        → i ≤ start
        → Ends (λ j. i ≤ j) (children start stop >>= mark_list)
    mark start stop h =
        Ends-bind P P (children start stop) mark_list (loop start stop h)
          (λ it j k. mark_list-Ends i j it k)

-- Two units of fuel for each byte that is left, and one, are enough for an item.
mutual
  unfolding decode_bytes

  decode_bytes-Ends :
      (f : ℕ) (it : RlpItem) (bytes : List ℕ) (i : ℕ)
      → 2 * (length bytes - i) < f
      → Ends (λ j. (i < j) × (i < length bytes)) (decode_bytes f it bytes i)
  decode_bytes-Ends zero it bytes i h = absurd (omega arith)
  decode_bytes-Ends (suc f) it bytes i h = elim (Option-cases (get_elem? bytes i)) [
    | inl e ↦ rw (e, index_byte) tt
    | inr (b, e) ↦
        rw (e, index_byte)
          (let inside = get_elem?-lt bytes i e in
            Ends-mono (λ j. i + 1 ≤ j) (λ j. (i < j) × (i < length bytes)) _
              (λ j k. (omega arith, inside))
              (decode_prefix-Ends it bytes (i + 1) b (decode_children f it bytes) (λ start stop k.
                Ends-mono (λ j. start ≤ j) (λ j. i + 1 ≤ j) _ (λ j l. omega arith)
                  (decode_children-Ends f it bytes start stop (omega arith)))))
  ]

  decode_children-Ends :
      (f : ℕ) (it : RlpItem) (bytes : List ℕ) (i : ℕ) (stop : Option ℕ)
      → 2 * (length bytes - i) + 1 < f
      → Ends (λ j. i ≤ j) (decode_children f it bytes i stop)
  decode_children-Ends zero it bytes i stop h = absurd (omega arith)
  decode_children-Ends (suc f) it bytes i stop h =
      Ends-if (λ j. i ≤ j) (before i stop) _ _
        (Ends-bind (λ j. (i < j) × (i < length bytes)) (λ j. i ≤ j) _ _
          (decode_bytes-Ends f (new_rlp_item list_type) bytes i (omega arith))
          (λ child next k.
            Ends-mono (λ j. next ≤ j) (λ j. i ≤ j) _ (λ j l. omega arith)
              (decode_children-Ends f (push_back it child) bytes next stop (omega arith))))
        (omega arith)

Ends-ne {ℓ κ} :
    {X : Type ℓ} {Y : Type κ} (P : ℕ → Type 0) (m : Outcome (X × ℕ)) (k : X × ℕ → Y)
    → Ends P m
    → (m >>= λ p. ok (k p)) ≢ out_of_fuel
Ends-ne P (ok p) k h e = cc
Ends-ne P panicked k h e = cc
Ends-ne P out_of_fuel k h e = elim h [ ]

-- `Read` ends on every input, well formed or not: it returns an item or panics, and the fuel that
-- the model gives it never runs out.
pub read-ne-out_of_fuel : (old : RlpItem) (bytes : List ℕ) → read old bytes ≢ out_of_fuel
read-ne-out_of_fuel old [] = unfold read in λ e. cc
read-ne-out_of_fuel old (b ∷ bs) = rw (read_lem old (b ∷ bs) (omega arith)) (
    Ends-ne _ _ (λ p. p.0)
      (decode_bytes-Ends _ (new_rlp_item (item_type old)) (b ∷ bs) 0 (omega arith)))

decode_bytes_0xF7 :
    (f : ℕ) (t : RlpType) (bs : List ℕ)
    → decode_bytes (suc (suc f)) (new_rlp_item t) (0xF7 ∷ bs) 0 ≡ ok (item list_type [] nil, 1)
unfolding decode_bytes decode_prefix int_add read_length
decode_bytes_0xF7 f t bs = refl

-- A list whose children take 55 bytes is read back with no children: the decoder takes its
-- prefix, 0xF7, for that of a list whose length follows in no bytes.
pub read-write_55 :
    (old : RlpItem) (cs : RlpItems)
    → length (write_items cs) ≡ 55
    → read old (write (item list_type [] cs)) ≡ ok (item list_type [] nil)
unfolding encode_length
read-write_55 old cs h =
    let fuel : 2 * length (0xF7 ∷ write_items cs) + 1 ≡ suc (suc 111) = omega (arith, h) in
    read_lem old _ (length-write (item list_type [] cs))
    ∙ rw (write-list cs, h, fuel, decode_bytes_0xF7 111 (item_type old) (write_items cs))
