-- ===== src/Rlp/RoundTrip.antt =====
-- sdk/rlp.go: what `Write` produced, `Read` gives back.
use hiero_sdk_go.Base.{
  ℕ, zero, suc, ◌+◌, ◌*◌, ◌^◌, ◌≤◌, ◌<◌, ◌≡◌, refl, sym, ap, ◌∙◌, ◌≢◌, inl, inr, some, List, [],
  ◌∷◌, ◌++◌, true, false, arith, ltb, Bool-cases, length, length-append, append_assoc, append-nil,
}
use hiero_sdk_go.Base.Cursor.{IsAt, IsAt-start, IsAt-skip}
use hiero_sdk_go.Rlp.{
  RlpType, RlpItem, RlpItems, item, nil, cons, value_type, list_type, snoc, item_type, new_rlp_item,
  encode_length, is_single_byte, write, write_items, push_back, clear, ok, ◌>>=◌, before,
  decode_bytes, decode_children, read,
}
use hiero_sdk_go.Rlp.Steps.{
  encode_length_short, encode_length_long, decode_bytes_byte, decode_bytes_string,
  decode_bytes_list,
}

-- The items that the code can read back: a value has no children, a list has no bytes of its own,
-- and no list's children take exactly 55 bytes.
mutual
  pub data IsCanonical : RlpItem → Type 0 where
    value : (v : List ℕ) → IsCanonical (item value_type v nil)
    list :
        (cs : RlpItems)
        → AreCanonical cs
        → length (write_items cs) ≢ 55
        → IsCanonical (item list_type [] cs)

  pub data AreCanonical : RlpItems → Type 0 where
    none : AreCanonical nil
    more :
        {c : RlpItem} {cs : RlpItems} → IsCanonical c → AreCanonical cs → AreCanonical (cons c cs)

-- `cs` behind what an item has already.
append_items : RlpItems → RlpItems → RlpItems
append_items nil ds = ds
append_items (cons c cs) ds = cons c (append_items cs ds)

append_items-snoc :
    (cs : RlpItems) (d : RlpItem) (ds : RlpItems)
    → append_items (snoc cs d) ds ≡ append_items cs (cons d ds)
unfolding append_items
append_items-snoc nil d ds = refl
append_items-snoc (cons c cs) d ds = ap (cons c) (append_items-snoc cs d ds)

append_items-nil : (cs : RlpItems) → append_items cs nil ≡ cs
unfolding append_items
append_items-nil nil = refl
append_items-nil (cons c cs) = ap (cons c) (append_items-nil cs)

length-encode_length : (n offset : ℕ) → offset ≤ 192 → 1 ≤ length (encode_length n offset)
length-encode_length n offset h = elim (Bool-cases (ltb n 56)) [
  | inl short ↦ rw (encode_length_short n offset (ground arith) h) (omega arith)
  | inr long ↦ rw (encode_length_long n offset (ground arith) h) (omega arith)
]

-- Every item takes a byte at least.
pub length-write : (it : RlpItem) → 1 ≤ length (write it)
unfolding write
length-write (item value_type [] cs) =
    rw (length-append (encode_length 0 0x80) []) (omega (arith, length-encode_length 0 0x80))
length-write (item value_type (b ∷ []) cs) =
    ground (arith, length-append (encode_length 1 0x80) (b ∷ []))
length-write (item value_type (b ∷ c ∷ bs) cs) =
    rw (length-append (encode_length (length (b ∷ c ∷ bs)) 0x80) (b ∷ c ∷ bs)) (omega arith)
length-write (item list_type v cs) = omega (
  arith,
  length-append (encode_length (length (write_items cs)) 0xC0) (write_items cs),
  length-encode_length (length (write_items cs)) 0xC0,
)

-- With fuel for two steps a byte, `p` reads an item, or items, off position `i` of `bytes`.
abbrev ReadsItem : RlpItem → Type 0
ReadsItem it =
    (t : RlpType) (f : ℕ) (bytes s : List ℕ) (i : ℕ)
    → IsAt bytes i (write it ++ s)
    → length bytes < 2 ^ 63
    → 2 * length (write it) ≤ f
    → decode_bytes f (new_rlp_item t) bytes i ≡ ok (it, i + length (write it))

abbrev ReadsItems : RlpItems → Type 0
ReadsItems cs =
    (t : RlpType) (f : ℕ) (bytes s : List ℕ) (i : ℕ) (before : RlpItems)
    → IsAt bytes i (write_items cs ++ s)
    → length bytes < 2 ^ 63
    → 2 * length (write_items cs) < f
    → decode_children f (item t [] before) bytes i (some (i + length (write_items cs)))
      ≡ ok (item t [] (append_items before cs), i + length (write_items cs))

write_string :
    (v : List ℕ)
    → is_single_byte v ≡ false
    → write (item value_type v nil) ≡ encode_length (length v) 0x80 ++ v
unfolding write
write_string v h = rw h

write_single : (v : List ℕ) → is_single_byte v ≡ true → write (item value_type v nil) ≡ v
unfolding write
write_single v h = rw h

string-Reads : (v : List ℕ) → is_single_byte v ≡ false → ReadsItem (item value_type v nil)
string-Reads v e t zero bytes s i p small fuel =
    absurd (omega (arith, length-write (item value_type v nil)))
string-Reads v e t (suc f) bytes s i p small fuel = rw (write_string v e) (
    decode_bytes_string f _ bytes small i v s (rw (write_string v e, append_assoc) at p)
    ∙ ap (λ (n : ℕ). ok (item value_type v nil, n))
        (ap (λ (n : ℕ). i + n) (sym (length-append (encode_length (length v) 0x80) v))))

byte-Reads : (v : List ℕ) → is_single_byte v ≡ true → ReadsItem (item value_type v nil)
byte-Reads v e t zero bytes s i p small fuel =
    absurd (omega (arith, length-write (item value_type v nil)))
byte-Reads [] e t (suc f) bytes s i p small fuel = cc
byte-Reads (b ∷ c ∷ v) e t (suc f) bytes s i p small fuel = cc
byte-Reads (b ∷ []) e t (suc f) bytes s i p small fuel =
    rw (write_single (b ∷ []) e)
      (decode_bytes_byte f _ bytes b i s (ground arith) (rw (write_single (b ∷ []) e) at p))

-- The round of the loop on a child that reads, and the end of the loop.
decode_children_round :
    (f : ℕ) (it c : RlpItem) (bytes : List ℕ) (i next stop : ℕ)
    → i < stop
    → decode_bytes f (new_rlp_item list_type) bytes i ≡ ok (c, next)
    → decode_children (suc f) it bytes i (some stop)
      ≡ decode_children f (push_back it c) bytes next (some stop)
unfolding decode_children
decode_children_round f it c bytes i next stop h e = rw e (ground arith)

decode_children_end :
    (f : ℕ) (it : RlpItem) (bytes : List ℕ) (i stop : ℕ)
    → stop ≤ i
    → decode_children (suc f) it bytes i (some stop) ≡ ok (it, i)
unfolding decode_children
decode_children_end f it bytes i stop h = let e : ltb i stop ≡ false = ground arith in rw e

nil-Reads : ReadsItems nil
nil-Reads t zero bytes s i before p small fuel = absurd (omega arith)
nil-Reads t (suc f) bytes s i before p small fuel =
    let e : i + length (write_items nil) ≡ i = unfold write in omega arith in
    rw e (decode_children_end f _ bytes i i (omega arith) ∙ rw append_items-nil)

write_items-cons :
    (c : RlpItem) (cs : RlpItems) → write_items (cons c cs) ≡ write c ++ write_items cs
unfolding write
write_items-cons c cs = refl

cons-Reads : (c : RlpItem) (cs : RlpItems) → ReadsItem c → ReadsItems cs → ReadsItems (cons c cs)
cons-Reads c cs reads rest t zero bytes s i before p small fuel = absurd (omega arith)
cons-Reads c cs reads rest t (suc f) bytes s i before p small fuel =
    let q = rw (write_items-cons, append_assoc) at p in
    let total : i + length (write_items (cons c cs))
        ≡ i + length (write c) + length (write_items cs) =
      rw write_items-cons (omega (arith, length-append (write c) (write_items cs))) in
    let k = length-write c in
    rw total (
      decode_children_round f _ c bytes i (i + length (write c)) _ (omega arith)
        (reads list_type f bytes (write_items cs ++ s) i q small (omega arith))
      ∙ unfold push_back in
        rest t f bytes s (i + length (write c)) (snoc before c) (IsAt-skip (write c) _ q) small
          (omega arith)
        ∙ rw append_items-snoc)

pub write-list :
    (cs : RlpItems)
    → write (item list_type [] cs) ≡ encode_length (length (write_items cs)) 0xC0 ++ write_items cs
unfolding write
write-list cs = refl

list-Reads :
    (cs : RlpItems)
    → length (write_items cs) ≢ 55
    → ReadsItems cs
    → ReadsItem (item list_type [] cs)
unfolding append_items
list-Reads cs ne reads t zero bytes s i p small fuel =
    absurd (omega (arith, length-write (item list_type [] cs)))
list-Reads cs ne reads t (suc f) bytes s i p small fuel =
    let n = length (write_items cs) in
    let q = rw (write-list, append_assoc) at p in
    let h = length-encode_length n 0xC0 (omega arith) in
    let total = length-append (encode_length n 0xC0) (write_items cs) in
    let room : 2 * n < f = omega (arith, rw write-list at fuel) in
    rw write-list (
      decode_bytes_list f _ bytes small i n (write_items cs ++ s) ne
        (omega (arith, length-append (write_items cs) s)) q
      ∙ rw (reads t f bytes s _ nil (IsAt-skip (encode_length n 0xC0) _ q) small room)
          (ap (λ (m : ℕ). ok (item list_type [] cs, m)) (omega (arith, total))))

mutual
  item-Reads : {it : RlpItem} → IsCanonical it → ReadsItem it
  item-Reads (value v) = elim (Bool-cases (is_single_byte v)) [
    | inl e ↦ byte-Reads v e
    | inr e ↦ string-Reads v e
  ]
  item-Reads (list cs h ne) = list-Reads cs ne (items-Reads h)

  items-Reads : {cs : RlpItems} → AreCanonical cs → ReadsItems cs
  items-Reads none = nil-Reads
  items-Reads (more {c} {cs} h hs) = cons-Reads c cs (item-Reads h) (items-Reads hs)

pub read_lem :
    (old : RlpItem) (bytes : List ℕ)
    → 1 ≤ length bytes
    → read old bytes ≡ (
        decode_bytes (2 * length bytes + 1) (new_rlp_item (item_type old)) bytes 0
        >>= λ (it, index). ok it)
unfolding read clear
read_lem old [] h = absurd (omega arith)
read_lem (item t v cs) (b ∷ bs) h = refl

-- `Read` after `Write` gives the item back, whatever the receiver held before. The item is one
-- whose values have no children, whose lists have no bytes of their own and no list of which has
-- children that take 55 bytes, and its encoding is shorter than the largest `int`.
pub read-write :
    (old it : RlpItem) → IsCanonical it → length (write it) < 2 ^ 63 → read old (write it) ≡ ok it
read-write old it h small =
    read_lem old (write it) (length-write it)
    ∙ rw (
        item-Reads h (item_type old) (2 * length (write it) + 1) (write it) [] 0
          (rw append-nil (IsAt-start (write it))) small (omega arith))
